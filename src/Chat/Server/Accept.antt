-- ===== src/Chat/Server/Accept.antt =====
-- The loop of main in pro/src/server.c over accept, and the threads that it creates: each is given the
-- address of main's server_fd and reads it in client_handler. hw5/proxy.c does the same.
use cmpe156_network_programm.Prelude.{
  ℕ, ◌+◌, ◌≡◌, ◌≢◌, ◌≤◌, ◌<◌, refl, ◌∙◌, sym, subst, ◌⊎◌, inl, inr, arith, ◌==◌, Bool-cases,
  if◌then◌else◌,
}

-- A thread, by the number of the connection for which it is created: not yet there, at its start, or with
-- the connection that it has read from server_fd.
pub data Handler : Type 0 where
  absent created : Handler
  serving : ℕ → Handler

-- The connections are numbered as accept gives them.
pub record Listener : Type 0 where
  pub accepted : ℕ
  pub server_fd : ℕ
  pub handlers : ℕ → Handler

abbrev pub listening : Listener
listening = record { accepted = 0; server_fd = 0; handlers = λ i. absent }

abbrev pub enter : (ℕ → Handler) → ℕ → Handler → ℕ → Handler
enter f i h j = if i == j then h else f j

-- main accepts the next connection and creates its thread, or a thread reads server_fd.
pub data Step (s t : Listener) : Type 0 where
  accept :
      t ≡ record {
        accepted = s.accepted + 1;
        server_fd = s.accepted;
        handlers = enter s.handlers s.accepted created;
      }
      → Step s t
  read :
      (i : ℕ)
      → s.handlers i ≡ created
      → t ≡ record s { handlers = enter s.handlers i (serving s.server_fd) }
      → Step s t

pub data Reach (s : Listener) : Listener → Type 0 where
  here : Reach s s
  next : {t u : Listener} → Reach s t → Step t u → Reach s u

-- server_fd has the last connection, a thread is there when its connection has been accepted, and none
-- serves a connection that came before its own.
record IsOrdered (s : Listener) : Type 0 where
  pub last : (s.accepted ≡ 0) ⊎ (s.accepted ≡ s.server_fd + 1)
  pub there : (i : ℕ) → s.handlers i ≢ absent → i < s.accepted
  pub behind : (i c : ℕ) → s.handlers i ≡ serving c → (i ≤ c) × (c < s.accepted)

-- The entered place, and the others.
enter-cases :
    (f : ℕ → Handler) (i : ℕ) (h : Handler) (j : ℕ)
    → ((i ≡ j) × (enter f i h j ≡ h)) ⊎ (enter f i h j ≡ f j)
enter-cases f i h j = elim (Bool-cases (i == j)) [
  | inl same ↦ inl (ground arith, rw same refl)
  | inr differs ↦ inr (rw differs refl)
]

accepted-IsOrdered :
    (s : Listener)
    → IsOrdered s
    → IsOrdered (record {
      accepted = s.accepted + 1;
      server_fd = s.accepted;
      handlers = enter s.handlers s.accepted created;
    })
accepted-IsOrdered s o = record {
  last = inr refl;
  there = λ j h. elim (enter-cases s.handlers s.accepted created j) [
    | inl (same, is) ↦ omega (arith, same)
    | inr is ↦ omega (arith, o.there j (λ e. h (is ∙ e)))
  ];
  behind = λ j c h. elim (enter-cases s.handlers s.accepted created j) [
    | inl (same, is) ↦ cc
    | inr is ↦ omega (arith, o.behind j c (sym is ∙ h))
  ];
}

read-IsOrdered :
    (s : Listener) (i : ℕ)
    → s.handlers i ≡ created
    → IsOrdered s
    → IsOrdered (record s { handlers = enter s.handlers i (serving s.server_fd) })
read-IsOrdered s i e o =
    let own : i < s.accepted = o.there i (λ a. cc) in
    record {
      last = o.last;
      there = λ j h. elim (enter-cases s.handlers i (serving s.server_fd) j) [
        | inl (same, is) ↦ omega (arith, same, own)
        | inr is ↦ o.there j (λ a. h (is ∙ a))
      ];
      behind = λ j c h. elim (enter-cases s.handlers i (serving s.server_fd) j) [
        | inl (same, is) ↦
            let read_fd : s.server_fd ≡ c = cc in omega (arith, same, read_fd, own, o.last)
        | inr is ↦ o.behind j c (sym is ∙ h)
      ];
    }

Step-IsOrdered : (s t : Listener) → Step s t → IsOrdered s → IsOrdered t
Step-IsOrdered s t (accept e) o = subst IsOrdered (sym e) (accepted-IsOrdered s o)
Step-IsOrdered s t (read i c e) o = subst IsOrdered (sym e) (read-IsOrdered s i c o)

listening-IsOrdered : IsOrdered listening
listening-IsOrdered = record {
  last = inl refl;
  there = λ i h. absurd (h refl);
  behind = λ i c h. cc;
}

Reach-IsOrdered : (s t : Listener) → Reach s t → IsOrdered s → IsOrdered t
Reach-IsOrdered s t here o = o
Reach-IsOrdered s t (next {t = u} r st) o = Step-IsOrdered u t st (Reach-IsOrdered s u r o)

-- claim
pub serves_not_before :
    (t : Listener) (i c : ℕ)
    → Reach listening t
    → t.handlers i ≡ serving c
    → (i ≤ c) × (c < t.accepted)
serves_not_before t i c r h = (Reach-IsOrdered listening t r listening-IsOrdered).behind i c h

-- A connection behind which another has been accepted, and which nobody serves.
record IsLost (s : Listener) (c : ℕ) : Type 0 where
  pub ordered : IsOrdered s
  pub passed : c + 1 < s.accepted
  pub nobody : (i : ℕ) → s.handlers i ≢ serving c

Step-IsLost : (s t : Listener) (c : ℕ) → Step s t → IsLost s c → IsLost t c
Step-IsLost s t c (accept e) l =
    subst (λ x. IsLost x c) (sym e)
      (record {
        ordered = accepted-IsOrdered s l.ordered;
        passed = omega (arith, l.passed);
        nobody = λ j h. elim (enter-cases s.handlers s.accepted created j) [
          | inl (same, is) ↦ cc
          | inr is ↦ l.nobody j (sym is ∙ h)
        ];
      })
Step-IsLost s t c (read i at e) l =
    subst (λ x. IsLost x c) (sym e)
      (record {
        ordered = read-IsOrdered s i at l.ordered;
        passed = l.passed;
        nobody = λ j h. elim (enter-cases s.handlers i (serving s.server_fd) j) [
          | inl (same, is) ↦
              let read_fd : s.server_fd ≡ c = cc in
              absurd (omega (arith, read_fd, l.passed, l.ordered.last))
          | inr is ↦ l.nobody j (sym is ∙ h)
        ];
      })

Reach-IsLost : (s t : Listener) (c : ℕ) → Reach s t → IsLost s c → IsLost t c
Reach-IsLost s t c here l = l
Reach-IsLost s t c (next {t = u} r st) l = Step-IsLost u t c st (Reach-IsLost s u c r l)

-- In any state that main's loop and its threads reach, if another connection has been accepted
-- behind a connection that no thread has read from server_fd, then no thread ever serves that
-- connection, whatever is accepted and read later.
pub never_served :
    (s t : Listener) (c : ℕ)
    → Reach listening s
    → c + 1 < s.accepted
    → ((i : ℕ) → s.handlers i ≢ serving c)
    → Reach s t
    → (i : ℕ) → t.handlers i ≢ serving c
never_served s t c r passed nobody later =
    (Reach-IsLost s t c later (record {
      ordered = Reach-IsOrdered listening s r listening-IsOrdered;
      passed = passed;
      nobody = nobody;
    })).nobody
