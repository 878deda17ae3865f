-- ===== src/Chat/Client/Threads.antt =====
-- The threads of pro/src/client.c over its globals: the loop of process_input, ^C, __listen_receive__ and
-- __peer_receive__, interleaved.
use cmpe156_network_programm.Prelude.{
  ℕ, suc, ◌≡◌, ◌<◌, refl, sym, ap, ◌∙◌, subst, Bool, true, false, List, ◌∷◌, ◌++◌, arith, Option,
  ok, length, length-append,
}
use cmpe156_network_programm.Libc.Str.{Bytes}
use cmpe156_network_programm.Chat.Client.Input.{
  Client, ClientState, normal, waiting, talking, Action, go, World, process_line, int_handler,
  peer_left, keeps_listening, listener_ready,
}
use cmpe156_network_programm.Chat.Client.Modes.{
  mode_after, dials, listens, process_line-Moves, int_handler-normal,
}

-- A thread of __listen_receive__: at the head of its loop, or in select.
pub data Waiter : Type 0 where
  testing selecting : Waiter

-- The globals, the threads that listen, and the count of those that read from a peer.
pub record Running : Type 0 where
  pub client : Client
  pub waiters : List Waiter
  pub receivers : ℕ

-- The thread that /wait creates, and the one that a call creates.
abbrev pub more_waiters : Bool → List Waiter → List Waiter
more_waiters true ws = testing ∷ ws
more_waiters false ws = ws

abbrev pub more_receivers : Bool → ℕ → ℕ
more_receivers true n = suc n
more_receivers false n = n

-- One step of the input's loop, of the signal, or of a thread.
pub data Step (s t : Running) : Type 0 where
  line :
      (w : World) (input : Option Bytes) (c : Client) (acts : List Action)
      → process_line w s.client input ≡ ok (go c acts)
      → t ≡ record {
        client = c;
        waiters = more_waiters (listens (go c acts)) s.waiters;
        receivers = more_receivers (dials (go c acts)) s.receivers;
      }
      → Step s t
  interrupt :
      (c : Client) (acts : List Action)
      → int_handler s.client ≡ ok (c, acts)
      → t ≡ record s { client = c }
      → Step s t
  select :
      (before after : List Waiter)
      → s.waiters ≡ before ++ testing ∷ after
      → keeps_listening s.client.my_state ≡ true
      → t ≡ record s { waiters = before ++ selecting ∷ after }
      → Step s t
  stop :
      (before after : List Waiter)
      → s.waiters ≡ before ++ testing ∷ after
      → keeps_listening s.client.my_state ≡ false
      → t ≡ record s { waiters = before ++ after }
      → Step s t
  ready :
      (before after : List Waiter)
      → s.waiters ≡ before ++ selecting ∷ after
      → t ≡ record {
        client = listener_ready s.client;
        waiters = before ++ after;
        receivers = suc s.receivers;
      }
      → Step s t
  peer_end :
      (n : ℕ)
      → s.receivers ≡ suc n
      → t ≡ record s { client = (peer_left s.client).0; receivers = n }
      → Step s t

pub data Steps (s : Running) : Running → Type 0 where
  no_step : Steps s s
  further : {t u : Running} → Steps s t → Step t u → Steps s u

-- A waiting client has a thread that listens, and a talking one a thread that reads.
pub record IsStaffed (s : Running) : Type 0 where
  pub listened : s.client.my_state ≡ waiting → 0 < length s.waiters
  pub received : s.client.my_state ≡ talking → 0 < s.receivers

line-IsStaffed :
    (s : Running) (w : World) (input : Option Bytes) (c : Client) (acts : List Action)
    → process_line w s.client input ≡ ok (go c acts)
    → IsStaffed s
    → IsStaffed (record {
      client = c;
      waiters = more_waiters (listens (go c acts)) s.waiters;
      receivers = more_receivers (dials (go c acts)) s.receivers;
    })
unfolding mode_after
line-IsStaffed s w input c acts e g =
    let follows = (process_line-Moves w s.client input (go c acts) e).follows in
    record {
      listened = λ m. ground (arith, follows, g.listened);
      received = λ m. ground (arith, follows, g.received);
    }

interrupt-normal :
    (d c : Client) (acts : List Action) → int_handler d ≡ ok (c, acts) → c.my_state ≡ normal
interrupt-normal d c acts e =
    let (d', acts', e', is, told) = int_handler-normal d in
    let same : d' ≡ c = cc in ap (λ (x : Client). x.my_state) (sym same) ∙ is

-- In the normal mode no thread is needed.
normal-IsStaffed : (s : Running) → s.client.my_state ≡ normal → IsStaffed s
normal-IsStaffed s e = record { listened = λ m. cc; received = λ m. cc }

select-IsStaffed :
    (s : Running) (before after : List Waiter)
    → s.waiters ≡ before ++ testing ∷ after
    → IsStaffed s
    → IsStaffed (record s { waiters = before ++ selecting ∷ after })
select-IsStaffed s before after at g = record {
  listened = λ m. omega (arith, length-append before (selecting ∷ after));
  received = g.received;
}

stop-IsStaffed :
    (s : Running) (ws : List Waiter)
    → keeps_listening s.client.my_state ≡ false
    → IsStaffed s
    → IsStaffed (record s { waiters = ws })
unfolding keeps_listening
stop-IsStaffed s ws e g =
    normal-IsStaffed (record s { waiters = ws }) (is_normal s.client.my_state e)
  where
    is_normal : (m : ClientState) → keeps_listening m ≡ false → m ≡ normal
    is_normal normal h = refl
    is_normal waiting h = cc
    is_normal talking h = cc

ready-IsStaffed :
    (c : Client) (ws : List Waiter) (n : ℕ)
    → IsStaffed (record { client = listener_ready c; waiters = ws; receivers = suc n })
unfolding listener_ready
ready-IsStaffed c ws n = record { listened = λ m. cc; received = λ m. omega arith }

Step-IsStaffed : (s t : Running) → Step s t → IsStaffed s → IsStaffed t
unfolding peer_left
Step-IsStaffed s t (line w input c acts e to) g =
    subst IsStaffed (sym to) (line-IsStaffed s w input c acts e g)
Step-IsStaffed s t (interrupt c acts e to) g =
    subst IsStaffed (sym to)
      (normal-IsStaffed (record s { client = c }) (interrupt-normal s.client c acts e))
Step-IsStaffed s t (select before after at e to) g =
    subst IsStaffed (sym to) (select-IsStaffed s before after at g)
Step-IsStaffed s t (stop before after at e to) g =
    subst IsStaffed (sym to) (stop-IsStaffed s (before ++ after) e g)
Step-IsStaffed s t (ready before after at to) g =
    subst IsStaffed (sym to) (ready-IsStaffed s.client (before ++ after) s.receivers)
Step-IsStaffed s t (peer_end n at to) g =
    subst IsStaffed (sym to)
      (normal-IsStaffed (record s { client = (peer_left s.client).0; receivers = n }) refl)

-- However the lines of input, ^C, the listening threads and the receiving threads of the chat
-- client interleave, from a state in which a waiting client has a thread that listens and a
-- talking client has a thread that reads from its peer, every state that is reached is such a
-- state.
pub Steps-IsStaffed : (s t : Running) → IsStaffed s → Steps s t → IsStaffed t
Steps-IsStaffed s t g no_step = g
Steps-IsStaffed s t g (further {t = u} before st) =
    Step-IsStaffed u t st (Steps-IsStaffed s u g before)

-- From any state of the chat client in which a listening thread is in select, ^C leads to the
-- normal mode, and when the thread's socket is then reported, as it is once the handler has shut
-- it down, what the thread does makes the mode talking.
pub interrupted_listener :
    (s : Running) (before after : List Waiter)
    → s.waiters ≡ before ++ selecting ∷ after
    → (c : Client) × (acts : List Action) × (int_handler s.client ≡ ok (c, acts))
      × (c.my_state ≡ normal)
      × Step s (record s { client = c })
      × Step
          (record s { client = c })
          (record {
            client = listener_ready c;
            waiters = before ++ after;
            receivers = suc s.receivers;
          })
      × ((listener_ready c).my_state ≡ talking)
unfolding listener_ready
interrupted_listener s before after at =
    let (c, acts, done, is, told) = int_handler-normal s.client in
    (c, acts, done, is, interrupt c acts done refl, ready before after at refl, refl)
