-- ===== src/Chat/AcceptTests.antt =====
-- The theorem on accepted connections at concrete inputs.
use cmpe156_network_programm.Prelude.{ℕ, ◌≢◌, refl, arith}
use cmpe156_network_programm.Chat.Server.Accept.{
  absent, created, serving, Listener, listening, enter, accept, read, Reach, here, next,
  never_served,
}

-- Two connections are accepted, and then both threads run.
abbrev one_accepted : Listener
one_accepted = record { accepted = 1; server_fd = 0; handlers = enter (λ i. absent) 0 created }

abbrev two_accepted : Listener
two_accepted = record {
  accepted = 2;
  server_fd = 1;
  handlers = enter one_accepted.handlers 1 created;
}

abbrev first_read : Listener
first_read = record two_accepted { handlers = enter two_accepted.handlers 0 (serving 1) }

abbrev both_read : Listener
both_read = record first_read { handlers = enter first_read.handlers 1 (serving 1) }

two_accepted-Reach : Reach listening two_accepted
two_accepted-Reach = next (next here (accept refl)) (accept refl)

both_read-Reach : Reach two_accepted both_read
both_read-Reach = next (next here (read 0 refl refl)) (read 1 refl refl)

nobody_yet : (i : ℕ) → two_accepted.handlers i ≢ serving 0
nobody_yet i e = ground arith

never_served_example : both_read.handlers 0 ≢ serving 0
never_served_example =
    never_served two_accepted both_read 0 two_accepted-Reach (omega arith) nobody_yet
      both_read-Reach 0
