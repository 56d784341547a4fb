-- ===== src/Relay/Answer.antt =====
-- src/relay.rs: the answer of every poll, from the history before it.
use xtp_rs.Prelude.{
  Bool, List, Option, [], and-split, any, ap, ap₂, arith, false, false≢true, if_elim, if◌then◌else◌,
  none, not, or_false-split, refl, some, sym, true, ℕ, ◌&&◌, ◌+◌, ◌||◌, ◌∙◌, ◌∷◌, ◌≡◌, ◌≢◌, ◌≤◌,
}
use xtp_rs.Relay.{
  Flags, Relay, RelayPoll, Round, after_copy, finished, half_close_timeout, new_relay, poll_copied,
  poll_relay, poll_timer, rearm, still_pending, track_all,
}
use xtp_rs.Relay.Timing.{
  ends, last_active, moves, not-false, rearm-armed, saw_eof, track_all-activity, track_all-eof,
}

not-true : (a : Bool) → not a ≡ true → a ≡ false
not-true a h = ground arith

finished-pending : {R : Type 0} (x : R) → finished x ≢ still_pending
finished-pending x q = cc

finished-timeout : {R : Type 0} (x : R) → finished x ≢ half_close_timeout
finished-timeout x q = cc

timeout_if :
    {R : Type 0} (b : Bool)
    → if◌then◌else◌ {A = RelayPoll R} b half_close_timeout still_pending ≡ half_close_timeout
    → b ≡ true
timeout_if true q = refl
timeout_if false q = cc

if_and :
    {A : Type 0} (b x y : Bool) (u v : A)
    → b ≡ true
    → x ≡ y
    → (if x then u else v) ≡ (if b && y then u else v)
if_and b x y u v h q = ground arith

module _ {R : Type 0} (elapsed : ℕ → ℕ → Bool) (grace : ℕ) where
  -- The state after a history of polls.
  unfoldable pub after : ℕ → List (Round R) → Relay
  unfolding poll_relay
  after start [] = new_relay grace start
  after start (r ∷ rs) = (poll_relay elapsed grace (after start rs) r).1

  -- No poll of the history has ended the future.
  abbrev pub AllPending : ℕ → List (Round R) → Type 0
  AllPending start [] = Unit
  AllPending start (r ∷ rs) =
      AllPending start rs × ((poll_relay elapsed grace (after start rs) r).0 ≡ still_pending)

  record IsAfter (rs : List (Round R)) (s : Relay) : Type 0 where
    taken : s.flags.activity ≡ false
    seen : s.flags.eof ≡ saw_eof rs
    armed_when : s.armed ≡ saw_eof rs
    set_to : saw_eof rs ≡ true → s.deadline ≡ last_active rs + grace

  -- What a poll has to answer after a history, if the copy is not done: the time-out exactly if a
  -- stream has ended and the timer is over, counted from the last activity.
  abbrev pub timed : List (Round R) → Round R → RelayPoll R
  timed rs r =
      if saw_eof (r ∷ rs) && elapsed (last_active (r ∷ rs) + grace) r.now
      then half_close_timeout
      else still_pending

  abbrev pub answer : List (Round R) → Round R → Option R → RelayPoll R
  answer rs r (some x) = finished x
  answer rs r none = timed rs r

  -- The flags and the timer after the copy of round `r` has left the session open.
  rearmed :
      (rs : List (Round R)) (r : Round R) (s : Relay) (f : Flags)
      → IsAfter rs s
      → f.activity ≡ any moves r.calls
      → (rearm grace (record s { flags = record f { activity = false } }) r.now f.activity).deadline
        ≡ last_active (r ∷ rs) + grace
  rearmed rs r s f h moved =
      let same : (not s.armed || f.activity) ≡ (not (saw_eof rs) || any moves r.calls) =
        ap₂ (λ a b. not a || b) h.armed_when moved in
      if_elim (λ (t : Relay). t.deadline ≡ last_active (r ∷ rs) + grace) (not s.armed || f.activity)
        (record s { flags = record f { activity = false }; deadline = r.now + grace; armed = true })
        (record s { flags = record f { activity = false } }) (λ t. rw (sym same ∙ t) refl)
        (λ t.
          let quiet = sym same ∙ t in
          let ended =
            not-false (saw_eof rs)
              (or_false-split (not (saw_eof rs)) (any moves r.calls) quiet).0 in
          rw quiet (h.set_to ended))

  after_copy-answer :
      (rs : List (Round R)) (r : Round R) (s : Relay) (f : Flags)
      → IsAfter rs s
      → f.eof ≡ saw_eof (r ∷ rs)
      → f.activity ≡ any moves r.calls
      → ((after_copy {R = R} elapsed grace s f r.now).0 ≡ timed rs r)
        × IsAfter (r ∷ rs) (after_copy {R = R} elapsed grace s f r.now).1
  after_copy-answer rs r s f h ended moved =
      let taken = record s { flags = record f { activity = false } } in
      let now_armed = rearm grace taken r.now f.activity in
      if_elim (λ (x : RelayPoll R × Relay). (x.0 ≡ timed rs r) × IsAfter (r ∷ rs) x.1) (not f.eof)
        (still_pending, taken) (poll_timer {R = R} elapsed grace now_armed r.now)
        (λ t.
          let none_ended : saw_eof (r ∷ rs) ≡ false = sym ended ∙ not-true f.eof t in
          (
            rw none_ended refl,
            record {
              taken = refl;
              seen = ended;
              armed_when =
                  h.armed_when
                  ∙ (or_false-split (saw_eof rs) (any ends r.calls) none_ended).0
                  ∙ sym none_ended;
              set_to = λ q. absurd (false≢true (sym none_ended ∙ q));
            },
          ))
        (λ t.
          let one_ended : saw_eof (r ∷ rs) ≡ true = sym ended ∙ not-false f.eof t in
          let set = rearmed rs r s f h moved in
          let armed = rearm-armed grace taken r.now f.activity in
          (
            if_and (saw_eof (r ∷ rs)) (elapsed now_armed.deadline r.now)
                (elapsed (last_active (r ∷ rs) + grace) r.now) half_close_timeout still_pending
                one_ended (ap (λ d. elapsed d r.now) set),
            record {
              taken = ap (λ (g : Flags). g.activity) armed.1;
              seen = ap (λ (g : Flags). g.eof) armed.1 ∙ ended;
              armed_when = armed.0 ∙ sym one_ended;
              set_to = λ q. set;
            },
          ))

  -- A poll that leaves the session open leaves the state that its history asks for.
  IsAnswer : List (Round R) → Round R → RelayPoll R × Relay → Type 0
  IsAnswer rs r x = (x.0 ≡ answer rs r r.copied) × (x.0 ≡ still_pending → IsAfter (r ∷ rs) x.1)

  poll_relay-IsAnswer :
      (rs : List (Round R)) (r : Round R) (s : Relay)
      → IsAfter rs s
      → IsAnswer rs r (poll_relay elapsed grace s r)
  unfolding poll_relay IsAnswer
  poll_relay-IsAnswer rs r s h = by_copied r.copied
    where
      by_copied :
          (o : Option R)
          → ((poll_copied elapsed grace s (track_all r.calls s.flags) r.now o).0 ≡ answer rs r o)
            × ((poll_copied elapsed grace s (track_all r.calls s.flags) r.now o).0 ≡ still_pending
                → IsAfter
                    (r ∷ rs)
                    (poll_copied elapsed grace s (track_all r.calls s.flags) r.now o).1)
      by_copied (some x) = (refl, λ q. absurd (finished-pending x q))
      by_copied none =
          let both =
            after_copy-answer rs r s (track_all r.calls s.flags) h
              (track_all-eof r.calls s.flags ∙ ap (λ b. b || any ends r.calls) h.seen)
              (track_all-activity r.calls s.flags ∙ ap (λ b. b || any moves r.calls) h.taken) in
          (both.0, λ q. both.1)

  after-IsAfter :
      (start : ℕ) (rs : List (Round R)) → AllPending start rs → IsAfter rs (after start rs)
  unfolding after IsAnswer
  after-IsAfter start [] h = record {
    taken = refl;
    seen = refl;
    armed_when = refl;
    set_to = λ q. absurd (false≢true q);
  }
  after-IsAfter start (r ∷ rs) h =
      (poll_relay-IsAnswer rs r (after start rs) (after-IsAfter start rs h.0)).1 h.1

  -- After any history of polls that left the session open, the next poll gives what the copy gives,
  -- if the copy is done; else it ends the session exactly if one of the streams has ended and the
  -- timer is over, counted from the last poll in which bytes moved after that, or in which the
  -- stream ended.
  pub poll_relay-answer :
      (start : ℕ) (rs : List (Round R)) (r : Round R)
      → AllPending start rs
      → (poll_relay elapsed grace (after start rs) r).0 ≡ answer rs r r.copied
  unfolding IsAnswer
  poll_relay-answer start rs r h =
      (poll_relay-IsAnswer rs r (after start rs) (after-IsAfter start rs h)).0

  -- If the timer is never ready before its deadline: a session is ended only after a stream has
  -- ended, at least the grace after the last poll in which bytes moved since then, and never while
  -- the copy has a result.
  pub poll_relay-no_early_timeout :
      (start : ℕ) (rs : List (Round R)) (r : Round R)
      → ((d now : ℕ) → elapsed d now ≡ true → d ≤ now)
      → AllPending start rs
      → (poll_relay elapsed grace (after start rs) r).0 ≡ half_close_timeout
      → (r.copied ≡ none) × (saw_eof (r ∷ rs) ≡ true) × (last_active (r ∷ rs) + grace ≤ r.now)
  poll_relay-no_early_timeout start rs r punctual h q =
      by_answer r.copied (sym (poll_relay-answer start rs r h) ∙ q)
    where
      by_answer :
          (o : Option R)
          → answer rs r o ≡ half_close_timeout
          → (o ≡ none) × (saw_eof (r ∷ rs) ≡ true) × (last_active (r ∷ rs) + grace ≤ r.now)
      by_answer (some x) q = absurd (finished-timeout x q)
      by_answer none q =
          let both =
            and-split (saw_eof (r ∷ rs)) (elapsed (last_active (r ∷ rs) + grace) r.now)
              (timeout_if (saw_eof (r ∷ rs) && elapsed (last_active (r ∷ rs) + grace) r.now) q) in
          (refl, both.0, punctual (last_active (r ∷ rs) + grace) r.now both.1)
