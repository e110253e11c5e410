-- ===== src/Async/TlsStream/Tests.antt =====
-- Async/AsyncTlsStream.cpp with a stand-in for OpenSSL that sends plaintext as it is.
use syncme.Prelude.{
  ℕ, ◌+◌, ◌-◌, ◌≡◌, ◌<◌, refl, arith, Bool, true, false, Option, none, some, List, [], ◌∷◌, ◌++◌,
  ◌⊎◌, inl, inr, length, take, drop, min, length-take, length-drop,
}
use syncme.Async.BufferChain.{BufferChain, empty_chain}
use syncme.Async.WriteQueue.{AsyncWriteQueue}
use syncme.Async.TlsStream.{
  ssl_error_ssl, ssl_error_want_read, completed, SslApi, Lower, read, write, none_origin, TlsStream,
}
use syncme.Async.TlsStream.Drive.{drain_encrypted_output}
use syncme.Async.TlsStream.Write.{encrypt_views}
use syncme.Async.TlsStream.Calls.{
  Call, call_start_read, call_start_write, call_start_handshake, call_lower_result, call_pop,
  call_set_sink, call_shutdown_send, run, is_shutdown_completed,
}
use syncme.Async.TlsStream.Drain.{IsMemoryBio, drain_encrypted_output-IsDrained}
use syncme.Async.TlsStream.Encrypt.{TakesWhatIsGiven, Encrypts, encrypt_views-Encrypts}
use syncme.Async.TlsStream.Machine.{closed_result}
use syncme.Async.TlsStream.Handshake.{HasOutcome, IsOver, run-HasOutcome, run-IsOver}
use syncme.Async.TlsStream.Notice.{awaits, IsAnnounced, run-IsAnnounced}
use syncme.Async.TlsStream.Reads.{delivered, IsBalanced, run-IsBalanced}
use syncme.Async.TlsStream.EarlyClose.{waiting, close_before_handshake_lem}

-- What came in and is not read, and what is to go out. The first byte that comes in is the handshake.
record Plain : Type 0 where
  inbox : List ℕ
  outbox : List ℕ

abbrev do_handshake : Plain → List ℕ → Option ℕ × Plain
do_handshake s [] = (some ssl_error_want_read, s)
do_handshake s (b ∷ bs) = (none, record s { inbox = bs; outbox = s.outbox ++ b ∷ [] })

abbrev read_some : Plain → ℕ → List ℕ → (ℕ ⊎ List ℕ) × Plain
read_some s n [] = (inl ssl_error_want_read, s)
read_some s n (b ∷ bs) = (inr (take n (b ∷ bs)), record s { inbox = drop n (b ∷ bs) })

-- Four bytes at most.
abbrev write_some : Plain → List ℕ → (ℕ ⊎ ℕ) × Plain
write_some s [] = (inl ssl_error_ssl, s)
write_some s (b ∷ bs) = (inr (min 3 (length bs)), record s { outbox = s.outbox ++ take 4 (b ∷ bs) })

abbrev bio_read : Plain → ℕ → List ℕ → (Bool ⊎ List ℕ) × Plain
bio_read s n [] = (inl true, s)
bio_read s n (b ∷ bs) = (inr (take n (b ∷ bs)), record s { outbox = drop n (b ∷ bs) })

abbrev plain_api : SslApi Plain
plain_api = record {
  do_handshake = λ s. do_handshake s s.inbox;
  read = λ s n. read_some s n s.inbox;
  write = write_some;
  shutdown = λ s. (completed, s);
  wbio_pending = λ s. length s.outbox;
  wbio_read = λ s n. bio_read s n s.outbox;
  rbio_write = λ s bytes. (some (length bytes - 1), record s { inbox = s.inbox ++ bytes });
}

plain_api-IsMemoryBio : IsMemoryBio plain_api
plain_api-IsMemoryBio = record { gives = λ s size h k. gives s size s.outbox refl h k }
  where
    gives :
        (s : Plain) (size : ℕ) (out : List ℕ)
        → s.outbox ≡ out
        → 0 < length out
        → 0 < size
        → (bytes : List ℕ) × (ssl : Plain) × (bio_read s size out ≡ (inr bytes, ssl))
          × (0 < length bytes)
          × (length ssl.outbox + length bytes ≡ length out)
    gives s size [] e h k = elim h [ ]
    gives s size (b ∷ bs) e h k = (
      take size (b ∷ bs),
      record s { outbox = drop size (b ∷ bs) },
      refl,
      omega (arith, length-take size (b ∷ bs)),
      omega (arith, length-take size (b ∷ bs), length-drop size (b ∷ bs)),
    )

plain_api-TakesWhatIsGiven : TakesWhatIsGiven plain_api
plain_api-TakesWhatIsGiven = record { at_most = at_most }
  where
    at_most :
        (s : Plain) (bytes : List ℕ) (n : ℕ) (ssl : Plain)
        → write_some s bytes ≡ (inr n, ssl)
        → n < length bytes
    at_most s [] n ssl e = cc
    at_most s (b ∷ bs) n ssl e = ground arith

abbrev low : Lower
low = record {
  writes = record {
    now = 7;
    start_write = λ c. true;
    can_track_write_progress = true;
    last_write_progress_time = 0;
  };
  start_read = true;
  shutdown_send = true;
}

abbrev writer : AsyncWriteQueue
writer = record {
  stream = true;
  chains = [];
  queued_bytes = 0;
  write_pending = false;
  write_started = 0;
  tracked = record { bytes = 0; peak = 0 };
  started = [];
}

-- A stream that adopted the plaintext 1, 2, 3.
abbrev stream : TlsStream Plain
stream = record {
  has_lower = true;
  has_ssl = true;
  has_bios = true;
  ssl = record { inbox = []; outbox = [] };
  pending_results = [];
  has_sink = false;
  result_notified = false;
  adopted_plain_buffers = (1 ∷ 2 ∷ 3 ∷ []) ∷ [];
  adopted_plain_offset = 0;
  lower_writer = writer;
  removing = false;
  handshake_started = true;
  handshake_completed = false;
  handshake_result_queued = false;
  lower_read_pending = false;
  lower_read_closed = false;
  tls_read_closed = false;
  shutdown_pending = false;
  shutdown_completed = false;
  lower_send_shutdown_completed = false;
  plain_read_buffer = none;
  plain_read_pending = false;
  plain_write_buffers = empty_chain;
  plain_write_offset = 0;
  plain_write_size = 0;
  plain_write_pending = false;
  plain_write_needs_read = false;
  last_error = none;
  reported = [];
  notified = 0;
  decrypted = [];
  encrypted = [];
}

-- A result of the lower stream.
abbrev lower_read : List ℕ → Lower × Call
lower_read bytes = (
  low,
  call_lower_result true (record {
    op = read;
    buffer = some bytes;
    bytes = length bytes;
    error = 0;
    origin = none_origin;
  }),
)

abbrev lower_wrote : ℕ → Lower × Call
lower_wrote n = (
  low,
  call_lower_result true
      (record { op = write; buffer = none; bytes = n; error = 0; origin = none_origin }),
)

abbrev payload : BufferChain
payload = record {
  views = record { buffer = 10 ∷ 11 ∷ 12 ∷ 13 ∷ 14 ∷ 15 ∷ []; offset = 1; size = 5 } ∷ [];
  total_size = 5;
}

-- A handshake, a read of the adopted plaintext, one of new plaintext, a write and the shutdown.
abbrev session : List (Lower × Call)
session =
    (low, call_set_sink true)
    ∷ (low, call_start_handshake)
    ∷ lower_read (9 ∷ [])
    ∷ (low, call_start_read (some 4))
    ∷ (low, call_pop)
    ∷ (low, call_start_read (some 4))
    ∷ lower_read (5 ∷ 6 ∷ [])
    ∷ lower_wrote 1
    ∷ (low, call_start_write payload)
    ∷ lower_wrote 5
    ∷ (low, call_shutdown_send)
    ∷ []

abbrev after_close : TlsStream Plain
after_close = record stream {
  handshake_result_queued = true;
  reported = closed_result ∷ [];
  lower_read_closed = true;
}

session_reports : delivered (run plain_api session stream).reported ≡ 1 ∷ 2 ∷ 3 ∷ 5 ∷ 6 ∷ []
unfolding run
session_reports = refl

session_encrypts : (run plain_api session stream).encrypted ≡ 11 ∷ 12 ∷ 13 ∷ 14 ∷ 15 ∷ []
unfolding run
session_encrypts = refl

session_shuts_down : is_shutdown_completed (run plain_api session stream) ≡ true
unfolding run is_shutdown_completed
session_shuts_down = refl

run-HasOutcome_example : HasOutcome (run plain_api session stream)
run-HasOutcome_example = run-HasOutcome plain_api session stream (refl, refl)

run-IsOver_example :
    IsOver (run plain_api session after_close)
    × ((run plain_api session after_close).reported ≡ closed_result ∷ [])
run-IsOver_example = run-IsOver plain_api session after_close (refl, refl, inl refl)

run-IsAnnounced_example :
    let t = run plain_api session stream in
    IsAnnounced t × ((awaits stream ≡ true) ⊎ (awaits t ≡ false) ⊎ (stream.notified < t.notified))
run-IsAnnounced_example = run-IsAnnounced plain_api session stream refl

run-IsBalanced_example : IsBalanced (1 ∷ 2 ∷ 3 ∷ []) (run plain_api session stream)
run-IsBalanced_example =
    run-IsBalanced plain_api (1 ∷ 2 ∷ 3 ∷ []) session stream (λ open_stream. refl)

abbrev full : TlsStream Plain
full = record stream { ssl = record { inbox = []; outbox = 1 ∷ 2 ∷ 3 ∷ [] } }

drain_encrypted_output_example :
    let (drained, s') = drain_encrypted_output plain_api low full in
    (drained ≡ true) × (length s'.ssl.outbox ≡ 0)
drain_encrypted_output_example =
    drain_encrypted_output-IsDrained plain_api low full plain_api-IsMemoryBio (λ c. refl) refl refl

encrypt_views_example :
    Encrypts stream (13 ∷ 14 ∷ 15 ∷ []) (encrypt_views plain_api low 2 payload.views stream)
encrypt_views_example =
    encrypt_views-Encrypts plain_api low plain_api-TakesWhatIsGiven payload.views 2 stream
      (omega arith, omega arith, tt)

close_before_handshake_example :
    (run plain_api
      ((low, call_lower_result true closed_result) ∷ (low, call_start_handshake) ∷ [])
      (waiting full)).reported
    ≡ closed_result ∷ closed_result ∷ []
close_before_handshake_example =
    close_before_handshake_lem plain_api low full full.ssl plain_api-IsMemoryBio (λ c. refl) refl
      refl
