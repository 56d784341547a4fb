-- ===== src/Tests/Relaying.antt =====
-- The half-close timer (src/relay.rs): a stream ends at 5, a byte moves at 8, then silence.
use xtp_rs.Prelude.{Bool, List, [], leb, leb→le, none, refl, true, ℕ, ◌+◌, ◌∷◌, ◌≡◌, ◌≤◌}
use xtp_rs.Relay.{
  Round, half_close_timeout, poll_read, poll_relay, poll_write, read_ready, still_pending,
  write_ready,
}
use xtp_rs.Relay.Timing.{last_active, saw_eof}
use xtp_rs.Relay.Answer.{AllPending, after, answer, poll_relay-answer, poll_relay-no_early_timeout}

abbrev over : ℕ → ℕ → Bool
over deadline now = leb deadline now

abbrev ended_at_5 : Round ℕ
ended_at_5 = record { calls = poll_read 0 100 (read_ready 0) ∷ []; copied = none; now = 5 }

abbrev moved_at_8 : Round ℕ
moved_at_8 = record { calls = poll_write (write_ready 1) ∷ []; copied = none; now = 8 }

abbrev silent_at : ℕ → Round ℕ
silent_at now = record { calls = []; copied = none; now = now }

abbrev history : List (Round ℕ)
history = moved_at_8 ∷ ended_at_5 ∷ []

history-AllPending : AllPending over 10 0 history
unfolding poll_relay after
history-AllPending = ((tt, refl), refl)

times_out : (poll_relay over 10 (after over 10 0 history) (silent_at 18)).0 ≡ half_close_timeout
unfolding poll_relay after
times_out = refl

waits_at_17 : (poll_relay over 10 (after over 10 0 history) (silent_at 17)).0 ≡ still_pending
unfolding poll_relay after
waits_at_17 = refl

poll_relay-answer_example :
    (poll_relay over 10 (after over 10 0 history) (silent_at 17)).0
    ≡ answer over 10 history (silent_at 17) none
poll_relay-answer_example = poll_relay-answer over 10 0 history (silent_at 17) history-AllPending

poll_relay-no_early_timeout_example :
    ((silent_at 18).copied ≡ none)
    × (saw_eof (silent_at 18 ∷ history) ≡ true)
    × (last_active (silent_at 18 ∷ history) + 10 ≤ 18)
poll_relay-no_early_timeout_example =
    poll_relay-no_early_timeout over 10 0 history (silent_at 18) (λ d now h. leb→le d now h)
      history-AllPending times_out
