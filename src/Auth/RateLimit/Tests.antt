-- ===== src/Auth/RateLimit/Tests.antt =====
-- A limiter of two guesses in ten seconds.
use first_principles.Base.{
  ◌≡◌, refl, ◌≢◌, String, true, false, List, [], ◌∷◌, arith, str_eq, str_eq_iff,
}
use first_principles.Base.Maps.{map_set}
use first_principles.Auth.RateLimit.{
  Limits, deny, live_counter, increment_counter, memory_attempt_store, check, record_failure,
  decide_counter, unlimited,
}
use first_principles.Auth.RateLimit.Window.{
  Event, checks, fails, elsewhere, answers, by_failures, answers-window,
}

abbrev limits : Limits
limits = record { max_attempts = 2; window_ms = 10000; on_store_error = deny }

abbrev events : List Event
events = elsewhere "bob" 1 ∷ checks 2 ∷ checks 3 ∷ fails 3 ∷ fails 4 ∷ checks 5 ∷ []

apart : (a b : String) → str_eq a b ≡ false → a ≢ b
apart a b h same = ground (arith, str_eq_iff a b)

bob-apart : ◌≢◌ {A = String} "bob" "ann"
unfolding str_eq
bob-apart = apart "bob" "ann" refl

ann-named : ◌≢◌ {A = String} "ann" ""
unfolding str_eq
ann-named = apart "ann" "" refl

answers_run : answers limits "ann" (fails 0 ∷ events) [] ≡ true ∷ true ∷ false ∷ []
unfolding answers check record_failure memory_attempt_store increment_counter live_counter
    decide_counter unlimited map_set str_eq
answers_run = refl

answers-window_example :
    answers limits "ann" (fails 0 ∷ events) [] ≡ by_failures limits "ann" 0 (fails 0 ∷ events)
answers-window_example =
    answers-window limits "ann" 0 events [] ann-named refl
      (bob-apart, (omega arith, (omega arith, (omega arith, (omega arith, (omega arith, tt))))))
