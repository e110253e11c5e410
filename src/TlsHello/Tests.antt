-- ===== src/TlsHello/Tests.antt =====
-- The parsers of TlsHello.cpp on a small hello.
use syncme.Prelude.{ℕ, true, false, none, some, List, [], ◌∷◌, ◌≡◌, ◌≢◌, refl, arith}
use syncme.TlsHello.Parse.{parse_sni, parse_alpn}
use syncme.TlsHello.Alpn.{parse_alpn-entries}
use syncme.TlsHello.Handshake.{
  Ssl, msg, select_cert, ok, no_error, peek_client_hello_impl, peek_client_hello_with_packets,
}
use syncme.TlsHello.Peek.{peek-encoded, peek_total, encoded}

-- "a.b", then "h2" and "x".
abbrev host : List ℕ
host = 97 ∷ 46 ∷ 98 ∷ []

abbrev h2 : List ℕ
h2 = 104 ∷ 50 ∷ []

abbrev ssl : Ssl
ssl = record {
  ctx_new = true;
  ssl_new = true;
  bio_new = true;
  error_string = [];
  callbacks = λ bytes.
      msg false (some bytes)
      ∷ select_cert (some (encoded host [] 0 (h2 ∷ []) ((120 ∷ []) ∷ [])))
      ∷ [];
  returns_one = λ bytes. false;
  wants_read = λ bytes. false;
}

sni-test : parse_sni (0 ∷ 6 ∷ 0 ∷ 0 ∷ 3 ∷ host) ≡ some (some host)
unfolding parse_sni
sni-test = refl

alpn-test : parse_alpn (0 ∷ 3 ∷ 2 ∷ h2) [] ≡ some (h2 ∷ [])
unfolding parse_alpn
alpn-test = refl

peek-encoded_example :
    peek_client_hello_with_packets ssl (some (22 ∷ 3 ∷ [])) []
    ≡ some (record {
      status = ok;
      out = record { sni = host; alpn = h2 ∷ (120 ∷ []) ∷ [] };
      packets = some ((22 ∷ 3 ∷ []) ∷ []);
      message = no_error;
    })
peek-encoded_example =
    peek-encoded ssl 22 (3 ∷ []) ((false, some (22 ∷ 3 ∷ [])) ∷ []) [] host [] 0 (h2 ∷ [])
      ((120 ∷ []) ∷ []) []
      (record {
        listed = omega arith;
        small_name = omega arith;
        names = (omega arith, omega arith, tt);
        others = (omega arith, omega arith, tt);
        small_alpn = omega arith;
      })
      (record { ctx_new = refl; ssl_new = refl; bio_new = refl; callbacks = refl })

peek_total_example : peek_client_hello_impl ssl (some (22 ∷ [])) none ≢ none
peek_total_example = peek_total ssl (some (22 ∷ [])) none (λ bytes. (tt, ground arith))

parse_alpn-entries_example :
    parse_alpn (0 ∷ 3 ∷ 2 ∷ 104 ∷ 50 ∷ 1 ∷ 120 ∷ []) [] ≡ some (h2 ∷ (120 ∷ []) ∷ [])
parse_alpn-entries_example =
    parse_alpn-entries (h2 ∷ []) ((120 ∷ []) ∷ []) [] (omega arith, omega arith, tt)
      (omega arith, omega arith, tt) (omega arith)

abbrev bad : List ℕ
bad = 0 ∷ 3 ∷ 2 ∷ 104 ∷ 50 ∷ 9 ∷ []

abbrev names : List ℕ
names = 0 ∷ 6 ∷ 0 ∷ 0 ∷ 3 ∷ host
