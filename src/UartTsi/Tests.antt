-- ===== src/UartTsi/Tests.antt =====
-- A small front-end server, and the theorems about the serial link at work on it.
use uart_tsi.Base.{
  ℕ, ◌≤◌, ◌≡◌, refl, not, Option, none, some, List, [], ◌∷◌, ◌++◌, length, is_empty, All, done,
  arith, true,
}
use uart_tsi.Fesvr.{Tsi, TsiLaws}
use uart_tsi.UartTsi.Link.{Poll, Link, send_all, drain, deliver, handle_uart, half_bytes, receive}
use uart_tsi.UartTsi.Link.Send.{send_all-HasRoom, send_all-failed}
use uart_tsi.UartTsi.Link.Call.{Moves, handle_uart_lem}
use uart_tsi.UartTsi.Session.{run_link, flush}
use uart_tsi.UartTsi.Session.Streams.{IsSound, Consumed}
use uart_tsi.UartTsi.Session.Whole.{run_link-IsFaithful, flush_strands}

-- `pending` is what the library's thread says next, when it is let run.
record DemoHost : Type 0 where
  pending : List ℕ
  queue : List ℕ
  all_taken : List ℕ
  all_accepted : List ℕ

abbrev pop : List ℕ → DemoHost → ℕ × DemoHost
pop [] h = (0, h)
pop (w ∷ ws) h = (w, record h { queue = ws; all_taken = h.all_taken ++ w ∷ [] })

abbrev demo : Tsi
demo = record {
  Host = DemoHost;
  data_available = λ h. not (is_empty h.queue);
  recv_word = λ h. pop h.queue h;
  send_word = λ w h. record h { all_accepted = h.all_accepted ++ w ∷ [] };
  switch_to_host = λ h. record h { pending = []; queue = h.queue ++ h.pending };
  is_done = λ h. not (is_empty h.all_accepted);
  exit_code = λ h. length h.all_accepted;
}

demo_recv :
    (h : DemoHost) (w : ℕ) (ws : List ℕ)
    → h.queue ≡ w ∷ ws
    → let r = pop h.queue h in
      (r.0 ≡ w)
      × (r.1.queue ≡ ws)
      × (r.1.all_taken ≡ h.all_taken ++ w ∷ [])
      × (r.1.all_accepted ≡ h.all_accepted)
demo_recv h w ws e = rw e (refl, refl, refl, refl)

abbrev demo_laws : TsiLaws demo
demo_laws = record {
  in_data = λ h. h.queue;
  taken = λ h. h.all_taken;
  accepted = λ h. h.all_accepted;
  available = λ h. refl;
  recv = demo_recv;
  send = λ h w. (refl, refl, refl);
  switch = λ h. (refl, refl);
}

abbrev fresh : Link demo
fresh = record {
  host = record { pending = 0x1020304 ∷ []; queue = []; all_taken = []; all_accepted = [] };
  read_bytes = [];
  wire = [];
}

-- A word is queued and a byte of an answer waits.
abbrev busy : Link demo
busy = record {
  host = record { pending = []; queue = 0xdeadbeef ∷ 7 ∷ []; all_taken = []; all_accepted = [] };
  read_bytes = 1 ∷ [];
  wire = [];
}

-- The line takes a byte or three at a time.
abbrev slow : List (Option ℕ)
slow = some 1 ∷ some 3 ∷ some 1 ∷ some 1 ∷ some 9 ∷ some 1 ∷ some 1 ∷ some 1 ∷ []

abbrev reads_three : Poll
reads_three = record { writes = slow; input = some (2 ∷ 0 ∷ 0 ∷ []) }

abbrev silent : Poll
silent = record { writes = slow; input = some [] }

abbrev two_words : List ℕ
two_words = 0xef ∷ 0xbe ∷ 0xad ∷ 0xde ∷ 7 ∷ 0 ∷ 0 ∷ 0 ∷ []

-- The words go out low byte first, and the four bytes read make the word 0x201.
handle_uart-busy :
    handle_uart demo 3 reads_three busy
    ≡ done (
      true,
      record {
        host = record {
          pending = [];
          queue = [];
          all_taken = 0xdeadbeef ∷ 7 ∷ [];
          all_accepted = 0x201 ∷ [];
        };
        read_bytes = [];
        wire = two_words;
      },
    )
unfolding handle_uart drain deliver send_all receive half_bytes
handle_uart-busy = refl

abbrev session : List Poll
session = reads_three ∷ record { writes = slow; input = some (3 ∷ []) } ∷ silent ∷ []

abbrev session_end : Link demo
session_end = record {
  host = record {
    pending = [];
    queue = [];
    all_taken = 0x1020304 ∷ [];
    all_accepted = 0x3000002 ∷ [];
  };
  read_bytes = [];
  wire = 4 ∷ 3 ∷ 2 ∷ 1 ∷ [];
}

run_link-fresh : run_link demo 3 session fresh ≡ done (1, session_end)
unfolding run_link handle_uart drain deliver send_all receive half_bytes
run_link-fresh = refl

sound : All IsSound session
sound = omega arith

send_all-HasRoom_example : send_all slow two_words 8 (5 ∷ []) ≡ done (5 ∷ two_words)
send_all-HasRoom_example =
    send_all-HasRoom slow two_words 8 (5 ∷ []) (omega arith) (omega arith) (omega arith)
      (omega arith)

-- A failure three bytes before the end: the fifth byte goes out again.
send_all-failed_example : send_all (none ∷ slow) two_words 3 [] ≡ done (7 ∷ 0 ∷ 0 ∷ 0 ∷ [])
send_all-failed_example =
    send_all-failed slow two_words 3 [] (omega arith) (omega arith) (omega arith) (omega arith)
      (omega arith)

handle_uart_lem_example :
    (l' : Link demo) × (ws : List ℕ) × (handle_uart demo 3 reads_three busy ≡ done (true, l'))
    × Moves demo demo_laws busy l' (2 ∷ 0 ∷ 0 ∷ []) ws
handle_uart_lem_example =
    handle_uart_lem demo demo_laws 3 reads_three busy (2 ∷ 0 ∷ 0 ∷ []) (omega arith)
      (record {
        room = omega arith;
        enough = omega arith;
        size = omega arith;
        reads = refl;
        bytes = omega arith;
        fits = omega arith;
      })
      (omega arith)

run_link-IsFaithful_example :
    (1 ≡ length session_end.host.all_accepted)
    × ((rest : List Poll) × Consumed demo demo_laws [] session rest session_end)
run_link-IsFaithful_example =
    run_link-IsFaithful demo demo_laws 3 (omega arith) session [] fresh sound
      (record { sent = refl; got = refl; bytes = tt }) run_link-fresh

abbrev crowded : Link demo
crowded = record busy { read_bytes = 1 ∷ 0 ∷ 0 ∷ 0 ∷ 2 ∷ 0 ∷ 0 ∷ 0 ∷ [] }

flush_strands_example :
    (l' : Link demo) × (flush demo 3 (silent ∷ []) crowded ≡ done (l', []))
    × (4 ≤ length l'.read_bytes)
flush_strands_example =
    flush_strands demo demo_laws 3 (omega arith) silent [] crowded (omega arith)
      (record {
        room = omega arith;
        enough = omega arith;
        size = omega arith;
        reads = refl;
        bytes = tt;
        fits = omega arith;
      })
      (omega arith) (omega arith)
