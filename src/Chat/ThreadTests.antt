-- ===== src/Chat/ThreadTests.antt =====
-- The theorems on the client's threads at concrete inputs.
use cmpe156_network_programm.Prelude.{List, [], ◌∷◌, ◌++◌, ◌≡◌, refl, some, pos, true, false}
use cmpe156_network_programm.Libc.Str.{Bytes, no_nul-NoNul, codes, str_eq, strcpy}
use cmpe156_network_programm.Libc.Tok.{strtok, skip, span}
use cmpe156_network_programm.Libc.Number.{format_d}
use cmpe156_network_programm.Chat.Protocol.{sprintf, format_wait_cmd}
use cmpe156_network_programm.Chat.Server.Room.{wait, text}
use cmpe156_network_programm.Chat.Server.Refine.{message}
use cmpe156_network_programm.Chat.Client.Input.{
  Client, normal, waiting, talking, Action, listen, write_server, World, process_line,
  starts_command, command_line, allowed_command, should_command_work_with_state, do_command,
  do_wait, keeps_listening, listener_ready,
}
use cmpe156_network_programm.Chat.Client.Modes.{listens, dials}
use cmpe156_network_programm.Chat.Client.Threads.{
  testing, selecting, Running, Step, line, select, ready, no_step, further, IsStaffed,
  Steps-IsStaffed, interrupted_listener,
}
use cmpe156_network_programm.Chat.Client.Input.{int_handler, is_open, send_msg_to_peer, write_peer}
use cmpe156_network_programm.Prelude.{ok, replicate, fault, indeterminate, arith}
use cmpe156_network_programm.Libc.Str.{no_nul-NoNul}
use cmpe156_network_programm.Chat.Client.Messages.{
  peer_thread, peer_receive, text_at, read_into, peer_text, peer_receive-send_msg_to_peer,
}

abbrev al : Bytes
al = codes "al"

abbrev idle : Client
idle = record { my_name = al; my_state = normal; fromwait = false }

abbrev waits : Client
waits = record idle { my_state = waiting }

abbrev wait_actions : List Action
wait_actions = listen ∷ write_server (message (wait al (pos 4000))) ∷ []

abbrev world : World
world = record { listening = some 4000; reads = []; peer_reached = true; talk_fd = pos 0 }

abbrev started : Running
started = record { client = idle; waiters = []; receivers = 0 }

abbrev tested : Running
tested = record { client = waits; waiters = testing ∷ []; receivers = 0 }

abbrev selected : Running
selected = record { client = waits; waiters = selecting ∷ []; receivers = 0 }

abbrev called : Running
called = record {
  client = record waits { my_state = talking; fromwait = true };
  waiters = [];
  receivers = 1;
}

-- /wait, the thread's test and its select, and a peer that connects.
wait-Step : Step started tested
unfolding process_line starts_command command_line strtok skip span allowed_command
    should_command_work_with_state do_command str_eq do_wait format_wait_cmd strcpy format_d sprintf
    text listens dials
wait-Step = line world (some (codes "/wait")) waits wait_actions refl refl

select-Step : Step tested selected
unfolding keeps_listening
select-Step = select [] [] refl refl refl

ready-Step : Step selected called
unfolding listener_ready
ready-Step = ready [] [] refl refl

started-IsStaffed : IsStaffed started
started-IsStaffed = record { listened = λ e. cc; received = λ e. cc }

Steps-IsStaffed_example : IsStaffed called
Steps-IsStaffed_example =
    Steps-IsStaffed started called started-IsStaffed
      (further (further (further no_step wait-Step) select-Step) ready-Step)

interrupted_listener_example :
    (c : Client) × (acts : List Action) × (int_handler selected.client ≡ ok (c, acts))
    × (c.my_state ≡ normal)
    × Step selected (record selected { client = c })
    × Step
        (record selected { client = c })
        (record { client = listener_ready c; waiters = [] ++ []; receivers = 1 })
    × ((listener_ready c).my_state ≡ talking)
interrupted_listener_example = interrupted_listener selected [] [] refl

peer_receive-send_msg_to_peer_example :
    (text : Bytes) × (send_msg_to_peer (pos 5) (codes "hi") al ≡ ok (write_peer text ∷ []))
    × (peer_thread (text ∷ []) ≡ fault indeterminate)
unfolding is_open
peer_receive-send_msg_to_peer_example =
    peer_receive-send_msg_to_peer (pos 5) al (codes "hi") [] refl
      (no_nul-NoNul (peer_text al (codes "hi")) refl) (omega arith)

-- A shorter message behind a longer one is shown with the longer one's end.
stale_end :
    peer_receive (replicate 12 (some 0)) (codes "bo: hello" ∷ codes "bo: a" ∷ [])
    ≡ ok (codes "bo: hello" ∷ codes "bo: aello" ∷ [])
unfolding peer_receive text_at read_into
stale_end = refl
