-- ===== src/Tests/SelfDestruct.antt =====
-- The self-destruct theorems at concrete messages.
use parda.Base.{
  ℕ, ◌+◌, ◌-◌, ◌≤◌, ◌≡◌, refl, ◌↔◌, inl, inr, true, Option, none, some, List, [], ◌∷◌, ◌++◌, arith,
  Bytes, replicate,
}
use parda.Result.{ok, is_ok}
use parda.Protocol.ClockGuard.{check_clock_integrity}
use parda.Protocol.SelfDestruct.{
  DestructMode, time_bound, combined, SelfDestructingMessage, PersistedSelfDestructState, new_key,
  derive_key, seal_inner, seal, seal_combined, spawn_expiry_timer, open_message, erases_on_read,
}
use parda.Protocol.SelfDestruct.Restore.{export_for_persistence, restore, remaining}
use parda.Protocol.SelfDestruct.Persist.{InOrder, Ahead, restore_iff, restore-export, restored_gone}
use parda.Protocol.SelfDestruct.Run.{
  World, Event, opens, opens_guarded, advances, run, successes, start,
}
use parda.Protocol.SelfDestruct.Run.Once.{successes-le_one}
use parda.Protocol.SelfDestruct.Run.Deadline.{sealed_gone}
use parda.Protocol.SelfDestruct.Run.Readable.{sealed_readable}
use parda.Tests.{test_crypto, test_crypto-Opens, test_env}

abbrev plaintext : Bytes
plaintext = 4 ∷ 2 ∷ []

-- What the seals of the plaintext at timestamp 900 with a window of 300 give.
abbrev test_key : DestructMode → ℕ → Bytes
test_key mode window = derive_key test_crypto (9 ∷ []) mode 900 window

abbrev sealed_message : DestructMode → ℕ → Option ℕ → Option ℕ → SelfDestructingMessage
sealed_message mode window deadline timer = record {
  ciphertext = replicate 12 7 ++ (test_key mode window ++ plaintext);
  key = new_key true (test_key mode window);
  mode = mode;
  expires_at_ms = deadline;
  timer = timer;
}

abbrev combined_message : SelfDestructingMessage
combined_message = sealed_message combined 300 (some 1300) (some 350)

abbrev timed_message : SelfDestructingMessage
timed_message = sealed_message time_bound 300 (some 1300) (some 350)

combined-sealed : seal_combined test_crypto test_env plaintext 900 300 ≡ ok combined_message
unfolding seal_combined seal_inner spawn_expiry_timer
combined-sealed = refl

timed-sealed : seal test_crypto test_env plaintext 900 300 ≡ ok timed_message
unfolding seal seal_inner spawn_expiry_timer
timed-sealed = refl

erases-combined : erases_on_read combined ≡ true
unfolding erases_on_read
erases-combined = refl

abbrev two_readings : List Event
two_readings = opens ∷ advances 20 ∷ opens_guarded 1100 ∷ []

abbrev test_world : World
test_world = record { message = combined_message; monotonic_ms = 50; watermark = none }

successes-le_one_example : successes test_crypto test_world two_readings ≤ 1
successes-le_one_example = successes-le_one test_crypto test_world two_readings erases-combined

abbrev past_deadline : List Event
past_deadline = opens ∷ advances 200 ∷ opens ∷ advances 100 ∷ []

sealed_gone_example :
    (run test_crypto (start timed_message 50 none) past_deadline).message.key.held ≡ none
sealed_gone_example =
    sealed_gone test_crypto test_env plaintext 900 300 timed_message none past_deadline
      (inl timed-sealed) (omega arith)

abbrev before_deadline : List Event
before_deadline = opens ∷ advances 200 ∷ opens ∷ []

sealed_readable_example :
    (open_message test_crypto
      (run test_crypto (start timed_message 50 none) before_deadline).message).0
    ≡ ok plaintext
sealed_readable_example =
    sealed_readable test_crypto test_env plaintext 900 300 timed_message none before_deadline
      test_crypto-Opens refl (inl timed-sealed) (refl, (tt, (refl, tt))) (inr (omega arith))

-- An exported message with the deadline 1300.
abbrev exported : PersistedSelfDestructState
exported = record {
  ciphertext = timed_message.ciphertext;
  key_bytes = test_key time_bound 300;
  mode = time_bound;
  expires_at_ms = some 1300;
}

abbrev restored : SelfDestructingMessage
restored = sealed_message time_bound 300 (some 1300) (some 180)

message-exported : export_for_persistence timed_message ≡ ok exported
unfolding export_for_persistence new_key
message-exported = refl

state-restored : (restore true exported (some 1100) 1200 80).0 ≡ ok restored
unfolding restore remaining spawn_expiry_timer check_clock_integrity
state-restored = refl

restore_iff_example :
    (is_ok (restore true exported (some 1100) 1200 80).0 ≡ true)
    ↔ InOrder (some 1100) 1200 × Ahead exported.expires_at_ms 1200
restore_iff_example = restore_iff true exported (some 1100) 1200 80

restore-export_example :
    ((open_message test_crypto restored).0 ≡ (open_message test_crypto timed_message).0)
    × (restored.mode ≡ timed_message.mode)
    × (restored.expires_at_ms ≡ timed_message.expires_at_ms)
    × ((deadline : ℕ)
        → timed_message.expires_at_ms ≡ some deadline
        → restored.timer ≡ some (80 + (deadline - 1200)))
    × (timed_message.expires_at_ms ≡ none → restored.timer ≡ none)
restore-export_example =
    restore-export true test_crypto timed_message restored exported (some 1100) 1200 80
      message-exported state-restored

restored_gone_example :
    (run test_crypto (start restored 80 none) (advances 100 ∷ [])).message.key.held ≡ none
restored_gone_example =
    restored_gone true test_crypto exported restored (some 1100) none 1200 80 1300
      (advances 100 ∷ []) state-restored refl (omega arith)
