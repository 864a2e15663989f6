-- ===== src/Dispatcher/Tests.antt =====
-- The promises of two requests, of which one is answered and the other times out.
use flowbroker.Prelude.{refl, true, inl, [], ◌∷◌}
use flowbroker.Prelude.Dict
use flowbroker.Dispatcher.{
  Dispatcher, replied, timed_out, new_dispatcher, drop_timer, send_request, receive_reply, time_out,
}
use flowbroker.Dispatcher.Promises.{Inv, Reached, begin, next, sends, receives, fires, Reached-Inv}

abbrev one : Dispatcher
one = send_request "r1" (new_dispatcher true)

abbrev two : Dispatcher
two = send_request "r2" one

abbrev answered : Dispatcher
answered = receive_reply "r1" two

abbrev expired : Dispatcher
expired = record {
  request_timeout = true;
  requests = [];
  timers = [];
  calls = (1, timed_out) ∷ (0, replied) ∷ [];
  next = 2;
}

expired-Reached : Reached true expired
unfolding send_request receive_reply time_out drop_timer Dict.get Dict.put Dict.remove
expired-Reached =
    next answered expired
      (next two answered
        (next one two
          (next (new_dispatcher true) one (begin true) (sends "r1" (new_dispatcher true) refl))
          (sends "r2" one refl))
        (receives "r1" two))
      (fires "r2" answered expired (inl refl) refl)

Reached-Inv_example : Inv expired
Reached-Inv_example = Reached-Inv true expired expired-Reached
