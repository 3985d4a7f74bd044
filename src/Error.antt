-- ===== src/Error.antt =====
-- src/error.rs: the kinds of error, and the conversions from and to the errors of other libraries. An
-- `Error` is its kind here; its context, its source and the addresses are texts for people.
pub mod Conversions
use isahc.Prelude.{ℕ, Bool, true, false, ◌||◌, Option, none, some, if◌then◌else◌}
use isahc.Prelude.Bytes.{Bytes, codes}

pub data ErrorKind : Type 0 where
  bad_client_certificate bad_server_certificate client_initialization connection_failed : ErrorKind
  invalid_content_encoding invalid_credentials invalid_request invalid_tls_configuration : ErrorKind
  io name_resolution protocol_violation request_body_not_rewindable timeout tls_engine : ErrorKind
  too_many_redirects unknown : ErrorKind

-- `Error::is_client`
unfoldable pub is_client : ErrorKind → Bool
is_client bad_client_certificate = true
is_client client_initialization = true
is_client invalid_credentials = true
is_client invalid_request = true
is_client request_body_not_rewindable = true
is_client tls_engine = true
is_client _ = false

-- `Error::is_network`
unfoldable pub is_network : ErrorKind → Bool
is_network connection_failed = true
is_network io = true
is_network name_resolution = true
is_network _ = false

-- `Error::is_server`
unfoldable pub is_server : ErrorKind → Bool
is_server bad_server_certificate = true
is_server protocol_violation = true
is_server too_many_redirects = true
is_server _ = false

-- `Error::is_timeout`
unfoldable pub is_timeout : ErrorKind → Bool
is_timeout timeout = true
is_timeout _ = false

-- `Error::is_tls`
unfoldable pub is_tls : ErrorKind → Bool
is_tls bad_client_certificate = true
is_tls bad_server_certificate = true
is_tls tls_engine = true
is_tls _ = false

-- `io::ErrorKind`, as far as the program tells the kinds apart.
pub data IoErrorKind : Type 0 where
  connection_refused timed_out connection_aborted broken_pipe interrupted other_io : IoErrorKind

-- An `io::Error` has its kind and, where it wraps an `Error`, that error.
pub record IoError : Type 0 where
  pub io_kind : IoErrorKind
  pub inner : Option ErrorKind

kind_of_io : IoErrorKind → ErrorKind
kind_of_io connection_refused = connection_failed
kind_of_io timed_out = timeout
kind_of_io _ = io

-- `From<io::Error> for Error`
unfoldable pub from_io : IoError → ErrorKind
unfolding kind_of_io
from_io error = elim error.inner [ some kind ↦ kind | none ↦ kind_of_io error.io_kind ]

io_kind_of : ErrorKind → IoErrorKind
io_kind_of connection_failed = connection_refused
io_kind_of timeout = timed_out
io_kind_of _ = other_io

-- `From<Error> for io::Error`
unfoldable pub to_io : ErrorKind → IoError
unfolding io_kind_of
to_io kind = record { io_kind = io_kind_of kind; inner = some kind }

-- `io::Error::from(kind)`: an I/O error that wraps nothing.
abbrev pub plain_io : IoErrorKind → IoError
plain_io kind = record { io_kind = kind; inner = none }

-- What the curl crate tells about one of its errors: the tests that the program makes.
pub record CurlError : Type 0 where
  pub is_ssl_certproblem : Bool
  pub is_peer_failed_verification : Bool
  pub is_ssl_cacert : Bool
  pub is_ssl_cipher : Bool
  pub is_ssl_issuer_error : Bool
  pub is_interface_failed : Bool
  pub is_couldnt_connect : Bool
  pub is_ssl_connect_error : Bool
  pub is_bad_content_encoding : Bool
  pub is_conv_failed : Bool
  pub is_login_denied : Bool
  pub is_url_malformed : Bool
  pub is_ssl_cacert_badfile : Bool
  pub is_couldnt_resolve_host : Bool
  pub is_couldnt_resolve_proxy : Bool
  pub is_got_nothing : Bool
  pub is_http2_error : Bool
  pub is_http2_stream_error : Bool
  pub is_unsupported_protocol : Bool
  pub is_weird_server_reply : Bool
  pub is_send_error : Bool
  pub is_recv_error : Bool
  pub is_read_error : Bool
  pub is_write_error : Bool
  pub is_upload_failed : Bool
  pub is_send_fail_rewind : Bool
  pub is_aborted_by_callback : Bool
  pub is_partial_file : Bool
  pub is_ssl_engine_initfailed : Bool
  pub is_ssl_engine_notfound : Bool
  pub is_ssl_engine_setfailed : Bool
  pub is_operation_timedout : Bool
  pub is_too_many_redirects : Bool

-- `Error::from_any`, of a curl error. The tests stand in groups, in the order of the source.
abbrev pub bad_server : CurlError → Bool
bad_server e =
    e.is_peer_failed_verification || e.is_ssl_cacert || e.is_ssl_cipher || e.is_ssl_issuer_error

abbrev pub bad_protocol : CurlError → Bool
bad_protocol e =
    e.is_got_nothing || e.is_http2_error || e.is_http2_stream_error || e.is_unsupported_protocol
    || e.is_weird_server_reply

abbrev pub bad_transfer : CurlError → Bool
bad_transfer e =
    e.is_send_error || e.is_recv_error || e.is_read_error || e.is_write_error || e.is_upload_failed
    || e.is_send_fail_rewind || e.is_aborted_by_callback || e.is_partial_file

abbrev pub bad_engine : CurlError → Bool
bad_engine e = e.is_ssl_engine_initfailed || e.is_ssl_engine_notfound || e.is_ssl_engine_setfailed

unfoldable pub from_curl : CurlError → ErrorKind
from_curl e =
    if e.is_ssl_certproblem
    then bad_client_certificate
    else if bad_server e
    then bad_server_certificate
    else if e.is_interface_failed
    then client_initialization
    else if e.is_couldnt_connect || e.is_ssl_connect_error
    then connection_failed
    else if e.is_bad_content_encoding || e.is_conv_failed
    then invalid_content_encoding
    else if e.is_login_denied
    then invalid_credentials
    else if e.is_url_malformed
    then invalid_request
    else if e.is_ssl_cacert_badfile
    then invalid_tls_configuration
    else if e.is_couldnt_resolve_host || e.is_couldnt_resolve_proxy
    then name_resolution
    else if bad_protocol e
    then protocol_violation
    else if bad_transfer e
    then io
    else if bad_engine e
    then tls_engine
    else if e.is_operation_timedout
    then timeout
    else if e.is_too_many_redirects
    then too_many_redirects
    else unknown

-- `Error::from_any`, of an error of the multi interface.
abbrev pub from_multi : Bool → ErrorKind
from_multi is_bad_socket = if is_bad_socket then io else unknown

-- `From<http::Error> for Error`: the argument says whether the error is an invalid name, value,
-- method or URI.
abbrev pub from_http : Bool → ErrorKind
from_http is_invalid_part = if is_invalid_part then invalid_request else unknown
