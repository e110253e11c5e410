-- ===== src/TlsHello/Peek.antt =====
-- PeekClientHelloImpl as a whole, on any callbacks and on the hello of a client.
use syncme.Prelude.{
  ℕ, ◌+◌, ◌^◌, ◌<◌, ◌≤◌, ◌≡◌, ◌≢◌, refl, ap, sym, ◌∙◌, Bool, true, false, Option, none, some, List,
  [], ◌∷◌, ◌++◌, length, arith, append-nil, append_assoc, inl, inr,
}
use syncme.TlsHello.Alpn.{AreBytes, AreNames, entries, u16, parse_alpn-entries, parse_alpn_lem}
use syncme.TlsHello.Sni.{host_list, parse_sni-host_list, parse_sni_lem}
use syncme.TlsHello.Handshake.{
  ClientHelloInfo, HelloCtx, SslClientHello, Ssl, Callback, msg, select_cert, ok, no_error,
  msg_callback, select_cert_callback, select_cert_error, run_callbacks, peek_client_hello_impl,
  peek_client_hello_with_packets, cleared, read_sni, read_alpn, select_cert_into, clear_packets,
}

-- Whether a call passed a record on the way in, with its bytes.
abbrev pub Message : Type 0
Message = Bool × Option (List ℕ)

abbrev pub calls : List Message → List Callback
calls [] = []
calls ((write_p, buf) ∷ ms) = msg write_p buf ∷ calls ms

-- What a passive observer of the client's side sees: the bytes that came in.
abbrev pub inbound : List Message → List (List ℕ)
inbound [] = []
inbound ((true, buf) ∷ ms) = inbound ms
inbound ((false, none) ∷ ms) = inbound ms
inbound ((false, some []) ∷ ms) = inbound ms
inbound ((false, some (b ∷ bs)) ∷ ms) = (b ∷ bs) ∷ inbound ms

run_callbacks-before :
    (ms : List Message) (k : List Callback) (ctx : HelloCtx) (acc : List (List ℕ))
    → ctx.got_hello ≡ false
    → ctx.packets ≡ some acc
    → run_callbacks (calls ms ++ k) ctx
      ≡ run_callbacks k (record ctx { packets = some (acc ++ inbound ms) })
unfolding run_callbacks
run_callbacks-before [] k ctx acc h e =
    ap (run_callbacks k) (λ i. record ctx { packets = (e ∙ ap some (sym (append-nil acc))) i })
run_callbacks-before ((true, buf) ∷ ms) k ctx acc h e =
    ground (arith, run_callbacks-before ms k ctx acc h e)
run_callbacks-before ((false, none) ∷ ms) k ctx acc h e =
    ground (arith, run_callbacks-before ms k ctx acc h e)
run_callbacks-before ((false, some []) ∷ ms) k ctx acc h e =
    ground (arith, run_callbacks-before ms k ctx acc h e)
run_callbacks-before ((false, some (b ∷ bs)) ∷ ms) k ctx acc h e = ground (
  arith,
  run_callbacks-before ms k (record ctx { packets = some (acc ++ (b ∷ bs) ∷ []) })
      (acc ++ (b ∷ bs) ∷ []) h refl,
  append_assoc acc ((b ∷ bs) ∷ []) (inbound ms),
)

run_callbacks-after :
    (ms : List Message) (ctx : HelloCtx)
    → ctx.got_hello ≡ true
    → run_callbacks (calls ms) ctx ≡ some ctx
unfolding run_callbacks
run_callbacks-after [] ctx h = refl
run_callbacks-after ((write_p, buf) ∷ ms) ctx h = ground (arith, run_callbacks-after ms ctx h)

module _ (name rest : List ℕ) (more : ℕ) (ps qs : List (List ℕ)) where
  -- A hello with one host name and a list of protocols.
  abbrev pub encoded : SslClientHello
  encoded = record {
    server_name = some (host_list name more rest);
    application_protocols = some (u16 (length (entries ps)) ++ (entries ps ++ entries qs));
  }

  pub record IsEncoded : Type 0 where
    pub listed : more ≤ length rest
    pub small_name : length (host_list name more rest) < 2 ^ 16
    pub names : AreNames ps
    pub others : AreNames qs
    pub small_alpn : length (entries ps ++ entries qs) + 2 < 2 ^ 16

  select_cert-encoded :
      (ctx : HelloCtx)
      → IsEncoded
      → ctx.out ≡ some cleared
      → select_cert_callback (some encoded) ctx
        ≡ some (
          select_cert_error,
          record ctx { got_hello = true; out = some (record { sni = name; alpn = ps ++ qs }) },
        )
  unfolding select_cert_callback
  select_cert-encoded ctx v e = ground (
    arith,
    parse_sni-host_list name rest more v.listed v.small_name,
    parse_alpn-entries ps qs [] v.names v.others v.small_alpn,
  )

-- BoringSSL as far as PeekClientHelloImpl sees it when nothing runs out: it passes the records
-- before the hello, the hello, and perhaps more records.
pub record Delivers (ssl : Ssl) (input : List ℕ) (before : List Message) (hello : SslClientHello)
    (after : List Message) : Type 0 where
  pub ctx_new : ssl.ctx_new ≡ true
  pub ssl_new : ssl.ssl_new ≡ true
  pub bio_new : ssl.bio_new ≡ true
  pub callbacks : ssl.callbacks input ≡ calls before ++ select_cert (some hello) ∷ calls after

abbrev fresh : HelloCtx
fresh = record { got_hello = false; out = some cleared; packets = some [] }

run_callbacks-select_cert :
    (hello : SslClientHello) (k : List Callback) (ctx ctx' : HelloCtx)
    → select_cert_callback (some hello) ctx ≡ some (select_cert_error, ctx')
    → run_callbacks (select_cert (some hello) ∷ k) ctx ≡ run_callbacks k ctx'
unfolding run_callbacks
run_callbacks-select_cert hello k ctx ctx' e = ground arith

run_callbacks-hello :
    (before after : List Message) (name rest : List ℕ) (more : ℕ) (ps qs : List (List ℕ))
    → IsEncoded name rest more ps qs
    → run_callbacks
        (calls before ++ select_cert (some (encoded name rest more ps qs)) ∷ calls after)
        fresh
      ≡ some (record {
        got_hello = true;
        out = some (record { sni = name; alpn = ps ++ qs });
        packets = some (inbound before);
      })
run_callbacks-hello before after name rest more ps qs v =
    run_callbacks-before before _ fresh [] refl refl
    ∙ run_callbacks-select_cert _ (calls after) captured _
        (select_cert-encoded name rest more ps qs captured v refl)
    ∙ run_callbacks-after after _ refl
  where
    captured : HelloCtx
    captured = record fresh { packets = some (inbound before) }

-- The input is not empty, nothing fails to be created, and BoringSSL delivers, after any records
-- and before any others, the hello of a client that names its host and its protocols in extensions
-- shorter than 2 ^ 16, each protocol of 1 to 255 bytes. Then the peek succeeds with that host, with
-- those protocols and any that stand behind the declared list, and with the inbound records that
-- came before the hello.
pub peek-encoded :
    (ssl : Ssl) (byte : ℕ) (bytes : List ℕ) (before after : List Message) (name rest : List ℕ)
    (more : ℕ) (ps qs old : List (List ℕ))
    → IsEncoded name rest more ps qs
    → Delivers ssl (byte ∷ bytes) before (encoded name rest more ps qs) after
    → peek_client_hello_with_packets ssl (some (byte ∷ bytes)) old
      ≡ some (record {
        status = ok;
        out = record { sni = name; alpn = ps ++ qs };
        packets = some (inbound before);
        message = no_error;
      })
unfolding peek_client_hello_with_packets
peek-encoded ssl byte bytes before after name rest more ps qs old v d =
    ground (arith, run_callbacks-hello before after name rest more ps qs v)

-- Extensions are byte strings shorter than 2 ^ 16.
abbrev pub IsExtension : Option (List ℕ) → Type 0
IsExtension none = Unit {0}
IsExtension (some ext) = (length ext < 2 ^ 16) × AreBytes ext

abbrev pub IsCallback : Callback → Type 0
IsCallback (msg write_p buf) = Unit {0}
IsCallback (select_cert none) = Unit {0}
IsCallback (select_cert (some hello)) =
    IsExtension hello.server_name × IsExtension hello.application_protocols

abbrev pub AreCallbacks : List Callback → Type 0
AreCallbacks [] = Unit {0}
AreCallbacks (c ∷ cs) = IsCallback c × AreCallbacks cs

read_sni_total :
    (ext : Option (List ℕ)) (out : ClientHelloInfo)
    → IsExtension ext
    → (out' : ClientHelloInfo) × (read_sni ext out ≡ some out')
unfolding read_sni
read_sni_total none out h = (out, refl)
read_sni_total (some ext) out h = elim (parse_sni_lem ext h.0 h.1) [
  | inl e ↦ (out, ground arith)
  | inr (head, name, rest, e, _, _) ↦ (record out { sni = name }, ground arith)
]

read_alpn_total :
    (ext : Option (List ℕ)) (out : ClientHelloInfo)
    → IsExtension ext
    → (out' : ClientHelloInfo) × (read_alpn ext out ≡ some out')
unfolding read_alpn
read_alpn_total none out h = (out, refl)
read_alpn_total (some ext) out h =
    let (new, rest, e, _, _) = parse_alpn_lem ext out.alpn h.0 h.1 in
    (record out { alpn = out.alpn ++ new }, ground arith)

select_cert_into_total :
    (hello : Option SslClientHello) (ctx : HelloCtx) (out : Option ClientHelloInfo)
    → IsCallback (select_cert hello)
    → (ctx' : HelloCtx) × (select_cert_into hello ctx out ≡ some (select_cert_error, ctx'))
unfolding select_cert_into
select_cert_into_total none ctx out h = (ctx, refl)
select_cert_into_total (some hello) ctx none h = (ctx, refl)
select_cert_into_total (some hello) ctx (some out) h =
    let (out', e) = read_sni_total hello.server_name out h.0 in
    let (out'', e') = read_alpn_total hello.application_protocols out' h.1 in
    (record ctx { got_hello = true; out = some out'' }, ground arith)

run_callbacks_total :
    (cs : List Callback) (ctx : HelloCtx)
    → AreCallbacks cs
    → (ctx' : HelloCtx) × (run_callbacks cs ctx ≡ some ctx')
unfolding run_callbacks
run_callbacks_total [] ctx h = (ctx, refl)
run_callbacks_total (msg write_p buf ∷ cs) ctx h =
    run_callbacks_total cs (msg_callback write_p buf ctx) h.1
run_callbacks_total (select_cert hello ∷ cs) ctx h =
    let (ctx', e) = select_cert_into_total hello ctx ctx.out h.0 in
    let (ctx'', e') = run_callbacks_total cs ctx' h.1 in (ctx'', ground arith)

-- Whatever bytes a peer puts into its hello, and whichever callbacks the library makes in
-- whatever order, with extensions that are byte strings shorter than 2 ^ 16: the peek returns, and
-- without a read outside an extension.
pub peek_total :
    (ssl : Ssl) (input : Option (List ℕ)) (packets : Option (List (List ℕ)))
    → ((bytes : List ℕ) → AreCallbacks (ssl.callbacks bytes))
    → peek_client_hello_impl ssl input packets ≢ none
unfolding peek_client_hello_impl
peek_total ssl none packets h e = cc
peek_total ssl (some []) packets h e = cc
peek_total ssl (some (b ∷ bs)) packets h e =
    let start : HelloCtx = record {
      got_hello = false;
      out = some cleared;
      packets = clear_packets packets;
    } in
    let (ctx, r) = run_callbacks_total (ssl.callbacks (b ∷ bs)) start (h (b ∷ bs)) in ground arith
