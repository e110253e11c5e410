-- ===== src/TlsHello/Handshake.antt =====
-- The two callbacks of TlsHello.cpp, and PeekClientHelloImpl around them. BoringSSL is a
-- parameter: what its constructors return, and which callbacks a handshake makes on given bytes.
use syncme.Prelude.{
  ℕ, Bool, true, false, not, ◌||◌, Option, none, some, List, [], ◌∷◌, ◌++◌, length, ◌==◌,
  if◌then◌else◌,
}
use syncme.TlsHello.Parse.{parse_sni, parse_alpn, ◌>>=◌}

pub data ClientHelloStatus : Type 0 where
  need_more ok error : ClientHelloStatus

pub record ClientHelloInfo : Type 0 where
  pub sni : List ℕ
  pub alpn : List (List ℕ)

-- The pointers `Out` and `Packets` may be null.
pub record HelloCtx : Type 0 where
  pub got_hello : Bool
  pub out : Option ClientHelloInfo
  pub packets : Option (List (List ℕ))

-- What SSL_early_callback_ctx_extension_get finds under the two extension types.
pub record SslClientHello : Type 0 where
  pub server_name : Option (List ℕ)
  pub application_protocols : Option (List ℕ)

pub data SslSelectCertResult : Type 0 where
  select_cert_success select_cert_error : SslSelectCertResult

append_packet : Option (List (List ℕ)) → List ℕ → Option (List (List ℕ))
append_packet none buf = none
append_packet (some packets) buf = some (packets ++ buf ∷ [])

is_null {ℓ} : {A : Type ℓ} → Option A → Bool
is_null none = true
is_null (some a) = false

msg_bytes : Option (List ℕ) → List ℕ
msg_bytes none = []
msg_bytes (some buf) = buf

-- MsgCallback; the buffer may be null or empty.
unfoldable pub msg_callback : Bool → Option (List ℕ) → HelloCtx → HelloCtx
unfolding append_packet is_null msg_bytes
msg_callback write_p buf ctx =
    if ctx.got_hello || (is_null ctx.packets || (is_null buf || length (msg_bytes buf) == 0))
    then ctx
    else if write_p
    then ctx
    else record ctx { packets = append_packet ctx.packets (msg_bytes buf) }

-- `none` is a read outside the extension.
unfoldable pub read_sni : Option (List ℕ) → ClientHelloInfo → Option ClientHelloInfo
read_sni none out = some out
read_sni (some ext) out =
    parse_sni ext >>= elim [ none ↦ some out | some name ↦ some (record out { sni = name }) ]

unfoldable pub read_alpn : Option (List ℕ) → ClientHelloInfo → Option ClientHelloInfo
read_alpn none out = some out
read_alpn (some ext) out = parse_alpn ext out.alpn >>= λ protos. some (record out { alpn = protos })

-- `client_hello`, and its `ssl`, may be null: `none`.
unfoldable pub select_cert_into :
    Option SslClientHello
    → HelloCtx
    → Option ClientHelloInfo
    → Option (SslSelectCertResult × HelloCtx)
unfolding read_sni read_alpn
select_cert_into none ctx out = some (select_cert_error, ctx)
select_cert_into (some hello) ctx none = some (select_cert_error, ctx)
select_cert_into (some hello) ctx (some out) = do
  with_sni ← read_sni hello.server_name out
  with_alpn ← read_alpn hello.application_protocols with_sni
  some (select_cert_error, record ctx { got_hello = true; out = some with_alpn })

unfoldable pub select_cert_callback :
    Option SslClientHello → HelloCtx → Option (SslSelectCertResult × HelloCtx)
unfolding select_cert_into
select_cert_callback hello ctx = select_cert_into hello ctx ctx.out

-- The calls that BoringSSL makes while SSL_do_handshake runs.
pub data Callback : Type 0 where
  msg : Bool → Option (List ℕ) → Callback
  select_cert : Option SslClientHello → Callback

unfoldable pub run_callbacks : List Callback → HelloCtx → Option HelloCtx
unfolding msg_callback select_cert_callback
run_callbacks [] ctx = some ctx
run_callbacks (msg write_p buf ∷ rest) ctx = run_callbacks rest (msg_callback write_p buf ctx)
run_callbacks (select_cert hello ∷ rest) ctx = elim (select_cert_callback hello ctx) [
  | none ↦ none
  | some (rc, ctx') ↦ run_callbacks rest ctx'
]

pub record Ssl : Type 0 where
  pub ctx_new : Bool
  pub ssl_new : Bool
  pub bio_new : Bool
  -- What GetOpenSslErrorString returns once a call has failed.
  pub error_string : List ℕ
  -- SSL_do_handshake on the given input: its callbacks, whether it returns 1, and whether
  -- SSL_get_error is SSL_ERROR_WANT_READ.
  pub callbacks : List ℕ → List Callback
  pub returns_one : List ℕ → Bool
  pub wants_read : List ℕ → Bool

-- The text of `error`: the call that failed, and the library's text.
pub data PeekError : Type 0 where
  no_error : PeekError
  ctx_new_failed ssl_new_failed bio_new_failed handshake_failed : List ℕ → PeekError

pub record Peek : Type 0 where
  pub status : ClientHelloStatus
  pub out : ClientHelloInfo
  pub packets : Option (List (List ℕ))
  pub message : PeekError

abbrev pub cleared : ClientHelloInfo
cleared = record { sni = []; alpn = [] }

unfoldable pub clear_packets : Option (List (List ℕ)) → Option (List (List ℕ))
clear_packets none = none
clear_packets (some packets) = some []

peeked : ClientHelloStatus → PeekError → HelloCtx → Peek
peeked status message ctx = record {
  status = status;
  out = elim ctx.out [ none ↦ cleared | some out ↦ out ];
  packets = ctx.packets;
  message = message;
}

finish_handshake : Ssl → List ℕ → HelloCtx → Peek
unfolding peeked
finish_handshake ssl input ctx =
    if ctx.got_hello
    then peeked ok no_error ctx
    else if ssl.returns_one input
    then peeked ok no_error ctx
    else if ssl.wants_read input
    then peeked need_more no_error ctx
    else peeked error (handshake_failed ssl.error_string) ctx

-- The data pointer may be null. `none` is a read outside an extension.
unfoldable pub peek_client_hello_impl : Ssl → Option (List ℕ) → Option (List (List ℕ)) → Option Peek
unfolding finish_handshake clear_packets run_callbacks is_null msg_bytes
peek_client_hello_impl ssl input packets =
    let start : HelloCtx = record {
      got_hello = false;
      out = some cleared;
      packets = clear_packets packets;
    } in
    if is_null input || length (msg_bytes input) == 0
    then some (peeked need_more no_error start)
    else if not ssl.ctx_new
    then some (peeked error (ctx_new_failed ssl.error_string) start)
    else if not ssl.ssl_new
    then some (peeked error (ssl_new_failed ssl.error_string) start)
    else if not ssl.bio_new
    then some (peeked error (bio_new_failed ssl.error_string) start)
    else run_callbacks (ssl.callbacks (msg_bytes input)) start >>= λ ctx.
        some (finish_handshake ssl (msg_bytes input) ctx)

-- PeekClientHello and PeekClientHelloWithPackets
unfoldable pub peek_client_hello : Ssl → Option (List ℕ) → Option Peek
unfolding peek_client_hello_impl
peek_client_hello ssl input = peek_client_hello_impl ssl input none

unfoldable pub peek_client_hello_with_packets : Ssl → Option (List ℕ) → List (List ℕ) → Option Peek
unfolding peek_client_hello_impl
peek_client_hello_with_packets ssl input packets = peek_client_hello_impl ssl input (some packets)
