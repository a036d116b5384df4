-- ===== src/Reconfig/Ready.antt =====
-- When a READY goes out, in `MsgRecsAggEchoReady_handler` of src/hotstuff.cpp.
use ava_hotstuff.Prelude.{
  ℕ, suc, ◌+◌, ◌≤◌, ◌<◌, ◌≡◌, ◌≢◌, ◌⊎◌, inl, inr, refl, sym, ap, ◌∙◌, Bool, true, false, ◌&&◌, none,
  some, List, [], ◌∷◌, arith, ◌==◌, if◌then◌else◌, subst, Option-cases, some-inj, ==_iff,
}
use ava_hotstuff.Prelude.Assoc.{lookup, or_new, lookup-put}
use ava_hotstuff.Entity.Config.{ReplicaConfig}
use ava_hotstuff.Core.Messages.{Recs}
use ava_hotstuff.Reconfig.{
  Site, Sent, multicast, my_agg, my_echo, my_ready, tally, bump_tally, send, count_echo,
  count_ready, count_recs, start_agreement, on_counted_recs, on_recs, acknowledge, on_agg,
  send_ready, on_echo, on_ready, on_recs_agg_echo_ready, get_leave_set,
}
use ava_hotstuff.Reconfig.Run.{Input, recs, ack, phase, ask_leave_set, react, react_all}

-- How often READY for `count` has been sent to the peers.
abbrev pub readies : ℕ → List Sent → ℕ
readies count [] = 0
readies count (multicast type r c ps ∷ m) =
    if type == my_ready && c == count then suc (readies count m) else readies count m
readies count (_ ∷ m) = readies count m

-- No READY comes in.
abbrev pub IsQuiet : Input → Type 0
IsQuiet (phase type r count) = type ≢ my_ready
IsQuiet _ = Unit {0}

abbrev pub AreQuiet : List Input → Type 0
AreQuiet [] = Unit {0}
AreQuiet (i ∷ is) = IsQuiet i × AreQuiet is

pub tally-bump_tally :
    (c d : ℕ) (m : List (ℕ × ℕ))
    → tally d (bump_tally c m) ≡ (if c == d then tally c m + 1 else tally d m)
unfolding tally bump_tally
tally-bump_tally c d m = ground (arith, lookup-put c d (or_new (lookup c m) 0 + 1) m)

-- What inputs other than a READY do for `count`: the echoes grow, and READY is sent once, if these
-- pass the majority, or not at all.
record Once (c : ℕ) (s t : Site) : Type 0 where
  same_config : t.config ≡ s.config
  more : tally c s.reconfig_echo_counter ≤ tally c t.reconfig_echo_counter
  sends :
      (readies c t.sent ≡ readies c s.sent)
      ⊎ ((readies c t.sent ≡ suc (readies c s.sent))
          × (tally c s.reconfig_echo_counter < s.config.nmajority)
          × (s.config.nmajority ≤ tally c t.reconfig_echo_counter))

none-ne-some : {A : Type 0} {x : A} → none ≢ some x
none-ne-some e = cc

module _ (c : ℕ) where
  Once-refl : (s : Site) → Once c s s
  Once-refl s = record { same_config = refl; more = omega arith; sends = inl refl }

  Once-trans : (s t u : Site) → Once c s t → Once c t u → Once c s u
  Once-trans s t u h k = record {
    same_config = k.same_config ∙ h.same_config;
    more = omega (arith, h.more, k.more);
    sends = go h.sends k.sends;
  }
    where
      same : t.config.nmajority ≡ s.config.nmajority
      same = ap (λ (x : ReplicaConfig). x.nmajority) h.same_config

      go :
          (readies c t.sent ≡ readies c s.sent)
            ⊎ ((readies c t.sent ≡ suc (readies c s.sent))
                × (tally c s.reconfig_echo_counter < s.config.nmajority)
                × (s.config.nmajority ≤ tally c t.reconfig_echo_counter))
          → (readies c u.sent ≡ readies c t.sent)
            ⊎ ((readies c u.sent ≡ suc (readies c t.sent))
                × (tally c t.reconfig_echo_counter < t.config.nmajority)
                × (t.config.nmajority ≤ tally c u.reconfig_echo_counter))
          → (readies c u.sent ≡ readies c s.sent)
            ⊎ ((readies c u.sent ≡ suc (readies c s.sent))
                × (tally c s.reconfig_echo_counter < s.config.nmajority)
                × (s.config.nmajority ≤ tally c u.reconfig_echo_counter))
      go (inl e) (inl f) = inl (f ∙ e)
      go (inr (e, lo, hi)) (inl f) = inr (f ∙ e, lo, omega (arith, k.more))
      go (inl e) (inr (f, lo, hi)) =
          inr (f ∙ ap suc e, omega (arith, h.more, same), omega (arith, same))
      go (inr (e, lo, hi)) (inr (f, lo', hi')) = absurd (omega (arith, same))

  on_recs-Once : (p : ℕ) (r : Recs) (s : Site) → Once c s (on_recs p r s)
  unfolding on_recs on_counted_recs count_recs start_agreement send count_echo
  on_recs-Once p r s =
      ground (arith, tally-bump_tally (s.reconfig_count + 1) c s.reconfig_echo_counter)

  acknowledge-Once : (p : ℕ) (r : Recs) (s : Site) → Once c s (acknowledge p r s)
  unfolding acknowledge count_recs send
  acknowledge-Once p r s = ground arith

  on_agg-Once : (r : Recs) (d : ℕ) (s : Site) → Once c s (on_agg r d s)
  unfolding on_agg count_echo send
  on_agg-Once r d s = ground (arith, tally-bump_tally d c s.reconfig_echo_counter)

  get_leave_set-Once : (s : Site) → Once c s (get_leave_set s).1
  unfolding get_leave_set
  get_leave_set-Once s = ground arith

  on_echo-Once : (r : Recs) (d : ℕ) (s t : Site) → on_echo r d s ≡ some t → Once c s t
  unfolding on_echo count_echo send_ready count_ready send
  on_echo-Once r d s t e = ground (
    arith,
    tally-bump_tally d c s.reconfig_echo_counter,
    tally-bump_tally d d s.reconfig_echo_counter,
  )

  react-Once : (i : Input) (s t : Site) → IsQuiet i → react i s ≡ some t → Once c s t
  unfolding react on_recs_agg_echo_ready
  react-Once (recs p r) s t quiet e = subst (Once c s) (some-inj e) (on_recs-Once p r s)
  react-Once (ack p r) s t quiet e = subst (Once c s) (some-inj e) (acknowledge-Once p r s)
  react-Once ask_leave_set s t quiet e = subst (Once c s) (some-inj e) (get_leave_set-Once s)
  react-Once (phase type r d) s t quiet e =
      go (type == my_agg) (type == my_echo) (type == my_ready) refl e
    where
      go :
          (x y z : Bool)
          → (type == my_ready) ≡ z
          → (if x
              then some (on_agg r d s)
              else if y
              then on_echo r d s
              else if z
              then on_ready r d s
              else some s)
            ≡ some t
          → Once c s t
      go true y z f e = subst (Once c s) (some-inj e) (on_agg-Once r d s)
      go false true z f e = on_echo-Once r d s t e
      go false false true f e = absurd (quiet ((==_iff type my_ready).0 f))
      go false false false f e = subst (Once c s) (some-inj e) (Once-refl s)

  react_all-Once :
      (is : List Input) (s t : Site) → AreQuiet is → react_all is s ≡ some t → Once c s t
  unfolding react_all
  react_all-Once [] s t quiet e = subst (Once c s) (some-inj e) (Once-refl s)
  react_all-Once (i ∷ is) s t (quiet, rest) e = elim (Option-cases (react i s)) [
    | inl none_left ↦ absurd (none-ne-some (sym (rw none_left refl) ∙ e))
    | inr (u, f) ↦
        Once-trans s u t (react-Once i s u quiet f) (react_all-Once is u t rest (rw f at e))
  ]

-- Along any inputs other than a READY, handled without an access out of range, READY for a count is
-- sent to the peers no more than once, and only where its echoes pass from below the majority to it
-- or above.
pub react_all-readies :
    (c : ℕ) (is : List Input) (s t : Site)
    → AreQuiet is
    → react_all is s ≡ some t
    → (readies c t.sent ≡ readies c s.sent)
      ⊎ ((readies c t.sent ≡ suc (readies c s.sent))
          × (tally c s.reconfig_echo_counter < s.config.nmajority)
          × (s.config.nmajority ≤ tally c t.reconfig_echo_counter))
react_all-readies c is s t quiet e = (react_all-Once c is s t quiet e).sends

-- An AGG that comes in when one echo is missing counts as that echo, and READY for its count is never
-- sent: not then, and not after any inputs other than a READY that are handled without an access out
-- of range.
pub react_all-agg_silent :
    (r : Recs) (c : ℕ) (is : List Input) (s t : Site)
    → tally c s.reconfig_echo_counter + 1 ≡ s.config.nmajority
    → AreQuiet is
    → react_all (phase my_agg r c ∷ is) s ≡ some t
    → readies c t.sent ≡ readies c s.sent
unfolding react_all react on_recs_agg_echo_ready on_agg count_echo send
react_all-agg_silent r c is s t one_missing quiet e =
    let h = react_all-Once c is (on_agg r c s) t quiet e in
    ground (arith, h.sends, tally-bump_tally c c s.reconfig_echo_counter)
