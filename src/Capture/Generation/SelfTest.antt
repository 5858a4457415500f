-- ===== src/Capture/Generation/SelfTest.antt =====
-- The capture self test: a fault anywhere fails it.
use vbuff.Base.{◌≡◌, refl, Bool, true, false, ◌||◌, List, [], ◌∷◌}
use vbuff.Capture.Generation.{
  SelfTestState, SelfTestObservation, idle, awaiting_restore, passed, failed, awaiting_echo,
  started, echo_confirmed, restore_confirmed, unexpected_echo, timed_out, observe_self_test,
}

-- The observations of the self test in their order.
pub test_run : SelfTestState → List SelfTestObservation → SelfTestState
test_run s [] = s
test_run s (o ∷ os) = test_run (observe_self_test s o) os

-- The observation ends the test as failed.
abbrev pub is_fault : SelfTestObservation → Bool
is_fault unexpected_echo = true
is_fault timed_out = true
is_fault _ = false

abbrev pub any_fault : List SelfTestObservation → Bool
any_fault [] = false
any_fault (o ∷ os) = is_fault o || any_fault os

failed_stays : (os : List SelfTestObservation) → test_run failed os ≡ failed
unfolding test_run observe_self_test
failed_stays [] = refl
failed_stays (started ∷ os) = failed_stays os
failed_stays (echo_confirmed ∷ os) = failed_stays os
failed_stays (restore_confirmed ∷ os) = failed_stays os
failed_stays (unexpected_echo ∷ os) = failed_stays os
failed_stays (timed_out ∷ os) = failed_stays os

fault_fails :
    (s : SelfTestState) (o : SelfTestObservation)
    → is_fault o ≡ true
    → observe_self_test s o ≡ failed
unfolding observe_self_test
fault_fails idle unexpected_echo h = refl
fault_fails idle timed_out h = refl
fault_fails awaiting_restore unexpected_echo h = refl
fault_fails awaiting_restore timed_out h = refl
fault_fails passed unexpected_echo h = refl
fault_fails passed timed_out h = refl
fault_fails failed unexpected_echo h = refl
fault_fails failed timed_out h = refl
fault_fails (awaiting_echo x) unexpected_echo h = refl
fault_fails (awaiting_echo x) timed_out h = refl
fault_fails s started h = absurd (cc h)
fault_fails s echo_confirmed h = absurd (cc h)
fault_fails s restore_confirmed h = absurd (cc h)

-- A test run that meets a fault anywhere ends as failed, also after the test had passed.
pub test_run-fault :
    (s : SelfTestState) (os : List SelfTestObservation)
    → any_fault os ≡ true
    → test_run s os ≡ failed
unfolding test_run observe_self_test
test_run-fault s [] h = absurd (cc h)
test_run-fault s (unexpected_echo ∷ os) h =
    rw (fault_fails s unexpected_echo refl, test_run) (failed_stays os)
test_run-fault s (timed_out ∷ os) h = rw (fault_fails s timed_out refl, test_run) (failed_stays os)
test_run-fault s (started ∷ os) h = test_run-fault (observe_self_test s started) os h
test_run-fault s (echo_confirmed ∷ os) h = test_run-fault (observe_self_test s echo_confirmed) os h
test_run-fault s (restore_confirmed ∷ os) h =
    test_run-fault (observe_self_test s restore_confirmed) os h
