-- ===== src/Body/Sync/Kept.antt =====
-- What the moves of `HttpClient::send` of src/client.rs keep, and that they come to an end.
use isahc.Prelude.{
  ℕ, ◌+◌, ◌≤◌, ◌≡◌, refl, sym, ap, subst, ◌∙◌, ◌⊎◌, inl, inr, true, false, Option, none, some, List,
  [], ◌∷◌, ◌++◌, length, length-append, ltb, arith, Bool-cases, Option-cases, append_assoc, some-eq,
}
use isahc.Prelude.Bytes.{Bytes}
use isahc.Prelude.Outcome.{Outcome, ok, err}
use isahc.Error.{IoError}
use isahc.Body.Sync.{
  ReadCall, read_some, read_interrupted, read_failed, in_response, Sending, Move, writer_moves,
  curl_reads, server_answers, write_chunk, write_turn, write_next, move,
}
use isahc.Body.Sync.Late.{late_move, run_late, content, IsSending, measure, Moved}

pub List-cases {ℓ} :
    {A : Type ℓ} (xs : List A) → (xs ≡ []) ⊎ ((x : A) × (rest : List A) × (xs ≡ x ∷ rest))
List-cases [] = inl refl
List-cases (x ∷ xs) = inr (x, xs, refl)

curl_reads-cases :
    (capacity : ℕ) (s next : Sending)
    → move capacity curl_reads s ≡ some next
    → (chunk : Bytes) × (more : List Bytes) × (s.pipe ≡ chunk ∷ more)
      × (next ≡ record s { pipe = more; taken = s.taken ++ chunk ∷ [] })
unfolding move
curl_reads-cases capacity s next e = elim (List-cases s.pipe) [
  | inl empty ↦ ground (arith, e, empty)
  | inr (chunk, more, full) ↦ (chunk, more, full, ground (arith, e, full))
]

curl_reads-Moved :
    (capacity : ℕ) (calls : List ReadCall) (s next : Sending)
    → IsSending calls s
    → move capacity curl_reads s ≡ some next
    → Moved calls s next
curl_reads-Moved capacity calls s next i e =
    let (chunk, more, full, same) = curl_reads-cases capacity s next e in
    subst (Moved calls s) (sym same) (record {
      kept = record {
        whole =
            append_assoc s.taken (chunk ∷ []) (more ++ content s.unread)
            ∙ sym (ap (λ p. s.taken ++ (p ++ content s.unread)) full)
            ∙ i.whole;
        waiting = i.waiting;
        ended = i.ended;
        emptied = λ r. cc (full, i.emptied r);
        done = i.done;
      };
      fewer = omega (arith, ap length full);
    })

-- What the writer does, if it has not ended.
data Wrote (s : Sending) : Sending → Type 0 where
  wrote_end :
      (result : Outcome IoError (Unit {0}))
      → content s.unread ≡ []
      → Wrote s (record s { written = some result })
  wrote_nothing :
      (more : List ReadCall)
      → s.unread ≡ read_interrupted ∷ more
      → Wrote s (record s { unread = more })
  wrote_chunk :
      (c : ℕ) (cs : Bytes) (more : List ReadCall)
      → s.unread ≡ read_some (c ∷ cs) ∷ more
      → Wrote s (record s { unread = more; pipe = s.pipe ++ (c ∷ cs) ∷ [] })

Wrote-same :
    (s next made : Sending) (call : Option Sending)
    → call ≡ some next
    → call ≡ some made
    → Wrote s made
    → Wrote s next
Wrote-same s next made call e f w = subst (Wrote s) (some-eq (sym f ∙ e)) w

write-Wrote :
    (capacity : ℕ) (s next : Sending) (unread : List ReadCall)
    → s.unread ≡ unread
    → write_next capacity s ≡ some next
    → Wrote s next
unfolding write_turn write_chunk
write-Wrote capacity s next [] u e =
    Wrote-same s next (record s { written = some (ok tt) }) (write_next capacity s) e
      (ap (write_turn capacity s) u) (wrote_end (ok tt) (rw u refl))
write-Wrote capacity s next (read_some [] ∷ more) u e =
    Wrote-same s next (record s { written = some (ok tt) }) (write_next capacity s) e
      (ap (write_turn capacity s) u) (wrote_end (ok tt) (rw u refl))
write-Wrote capacity s next (read_failed x ∷ more) u e =
    Wrote-same s next (record s { written = some (err x) }) (write_next capacity s) e
      (ap (write_turn capacity s) u) (wrote_end (err x) (rw u refl))
write-Wrote capacity s next (read_interrupted ∷ more) u e =
    Wrote-same s next (record s { unread = more }) (write_next capacity s) e
      (ap (write_turn capacity s) u) (wrote_nothing more u)
write-Wrote capacity s next (read_some (c ∷ cs) ∷ more) u e =
    elim (Bool-cases (ltb (length s.pipe) capacity)) [
      | inl room ↦
          Wrote-same s next (record s { unread = more; pipe = s.pipe ++ (c ∷ cs) ∷ [] })
            (write_next capacity s) e (ap (write_turn capacity s) u ∙ rw room refl)
            (wrote_chunk c cs more u)
      | inr full ↦ absurd (blocked full)
    ]
  where
    blocked : ltb (length s.pipe) capacity ≡ false → ⊥
    blocked full =
        let waits : write_next capacity s ≡ none = ap (write_turn capacity s) u ∙ rw full refl in
        cc (waits, e)

-- Where the writer still runs, there is no response.
pub running :
    (calls : List ReadCall) (s : Sending)
    → IsSending calls s
    → s.written ≡ none
    → s.response ≡ false
running calls s i w = elim (Bool-cases s.response) [
  | inr e ↦ e
  | inl e ↦ let (result, f) = i.ended e in cc (w, f)
]

Wrote-Moved :
    (calls : List ReadCall) (s next : Sending)
    → IsSending calls s
    → s.written ≡ none
    → Wrote s next
    → Moved calls s next
Wrote-Moved calls s next i w (wrote_end result e) = record {
  kept = record {
    whole = i.whole;
    waiting = i.waiting;
    ended = λ r. (result, refl);
    emptied = i.emptied;
    done = λ x f. e;
  };
  fewer = rw w (omega arith);
}
Wrote-Moved calls s next i w (wrote_nothing more u) = record {
  kept = record {
    whole = ap (λ x. s.taken ++ (s.pipe ++ content x)) (sym u) ∙ i.whole;
    waiting = i.waiting;
    ended = i.ended;
    emptied = i.emptied;
    done = λ x f. cc (w, f);
  };
  fewer = omega (arith, ap length u);
}
Wrote-Moved calls s next i w (wrote_chunk c cs more u) =
    let none_yet = running calls s i w in
    record {
      kept = record {
        whole =
            ap (λ x. s.taken ++ x) (append_assoc s.pipe ((c ∷ cs) ∷ []) (content more))
            ∙ ap (λ x. s.taken ++ (s.pipe ++ content x)) (sym u)
            ∙ i.whole;
        waiting = i.waiting;
        ended = i.ended;
        emptied = λ r. cc (none_yet, r);
        done = λ x f. cc (w, f);
      };
      fewer = omega (arith, ap length u, length-append s.pipe ((c ∷ cs) ∷ []));
    }

server_answers-cases :
    (capacity : ℕ) (s next : Sending)
    → late_move capacity server_answers s ≡ some next
    → (result : Outcome IoError (Unit {0})) × (s.written ≡ some result)
      × (s.pipe ≡ [])
      × (s.response ≡ false)
      × (next ≡ record s { response = true; held = in_response })
unfolding late_move move
server_answers-cases capacity s next e = elim (Option-cases s.written) [
  | inl w ↦ ground (arith, e, w)
  | inr (result, w) ↦ elim (List-cases s.pipe) [
    | inr (chunk, more, full) ↦ ground (arith, e, w, full)
    | inl empty ↦ elim (Bool-cases s.response) [
      | inl r ↦ ground (arith, e, w, empty, r)
      | inr r ↦ (result, w, empty, r, ground (arith, e, w, empty, r))
    ]
  ]
]

server_answers-Moved :
    (capacity : ℕ) (calls : List ReadCall) (s next : Sending)
    → IsSending calls s
    → late_move capacity server_answers s ≡ some next
    → Moved calls s next
server_answers-Moved capacity calls s next i e =
    let (result, w, empty, r, same) = server_answers-cases capacity s next e in
    subst (Moved calls s) (sym same) (record {
      kept = record {
        whole = i.whole;
        waiting = λ f. cc f;
        ended = λ f. (result, w);
        emptied = λ f. empty;
        done = i.done;
      };
      fewer = rw r (omega arith);
    })

late_move-Moved :
    (capacity : ℕ) (calls : List ReadCall) (m : Move) (s next : Sending)
    → IsSending calls s
    → late_move capacity m s ≡ some next
    → Moved calls s next
unfolding late_move move
late_move-Moved capacity calls server_answers s next i e =
    server_answers-Moved capacity calls s next i e
late_move-Moved capacity calls curl_reads s next i e = curl_reads-Moved capacity calls s next i e
late_move-Moved capacity calls writer_moves s next i e = elim (Option-cases s.written) [
  | inr (result, w) ↦ ground (arith, e, w)
  | inl w ↦
      Wrote-Moved calls s next i w
        (write-Wrote capacity s next s.unread refl (ground (arith, e, w)))
]

pub run_late-Moved :
    (capacity : ℕ) (calls : List ReadCall) (moves : List Move) (s last : Sending)
    → IsSending calls s
    → run_late capacity moves s ≡ some last
    → IsSending calls last × (length moves + measure last ≤ measure s)
unfolding run_late
run_late-Moved capacity calls [] s last i e =
    subst (λ x. IsSending calls x × (0 + measure x ≤ measure s)) (some-eq e) (i, omega arith)
run_late-Moved capacity calls (m ∷ moves) s last i e =
    elim (Option-cases (late_move capacity m s)) [
      | inl stuck ↦ ground (arith, e, stuck)
      | inr (next, moved) ↦
          let step = late_move-Moved capacity calls m s next i moved in
          let rest =
            run_late-Moved capacity calls moves next last step.kept (ground (arith, e, moved)) in
          (rest.0, omega (arith, rest.1, step.fewer))
    ]
