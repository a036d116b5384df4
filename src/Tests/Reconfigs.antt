-- ===== src/Tests/Reconfigs.antt =====
-- A replica of a cluster of four, which the node 2 asks to leave.
use ava_hotstuff.Reconfig.Changes.{gone, agreed_all, is_away, keeps, none_of}
use ava_hotstuff.Entity.Config.{PeerId}
use ava_hotstuff.Prelude.{has, false, ◌≤◌, ◌<◌, ◌≡◌, refl, ◌⊎◌, some, none, List, [], ◌∷◌, arith}
use ava_hotstuff.Core.Messages.{Recs}
use ava_hotstuff.Reconfig.{
  Site, my_agg, my_echo, my_ready, tally, send, count_echo, count_ready, on_agg, on_echo,
  send_ready, on_ready, take_over, leave, refresh, staying, on_recs_agg_echo_ready, bump_tally,
}
use ava_hotstuff.Prelude.Assoc.{lookup, put}
use ava_hotstuff.Reconfig.Run.{Input, phase, react, react_all}
use ava_hotstuff.Reconfig.Current.{IsCurrent}
use ava_hotstuff.Reconfig.Peers.{react_all-IsCurrent}
use ava_hotstuff.Reconfig.Ready.{readies, react_all-readies, react_all-agg_silent}
use ava_hotstuff.Tests.{four}

abbrev pub site : Site
site = record {
  id = 0;
  config = four;
  peers = 51 ∷ 52 ∷ 53 ∷ [];
  all_peers = 50 ∷ 51 ∷ 52 ∷ 53 ∷ [];
  peers_current = 51 ∷ 52 ∷ 53 ∷ [];
  leave_set = [];
  leave_set_int = [];
  pending_recs = [];
  reconfig_echo_counter = [];
  reconfig_ready_counter = [];
  reconfig_count = 0;
  reconfig_sent = 0;
  sent = [];
}

abbrev request : Recs
request = record { cluster_number = 1; node_number = 2; reconfig_mode = 1 }

abbrev echo : Input
echo = phase my_echo request 1

abbrev ready : Input
ready = phase my_ready request 1

abbrev after_all : List Input → Site
after_all is = elim (react_all is site) [ none ↦ site | some t ↦ t ]

site-IsCurrent : IsCurrent site
unfolding has
site-IsCurrent = record {
  members = λ p. ground arith;
  in_order = keeps (keeps (keeps none_of));
  nreplicas = refl;
  nmajority = refl;
}

react_all-IsCurrent_example :
    (t : Site) × (react_all (ready ∷ ready ∷ ready ∷ []) site ≡ some t)
    × IsCurrent t
    × (t.peers ≡ 51 ∷ 52 ∷ 53 ∷ [])
    × ((p : PeerId)
        → has p t.leave_set ≡ is_away p false (agreed_all (ready ∷ ready ∷ ready ∷ []) site))
unfolding has
react_all-IsCurrent_example =
    react_all-IsCurrent (ready ∷ ready ∷ ready ∷ []) site site-IsCurrent (omega arith)

node_leaves : agreed_all (ready ∷ ready ∷ ready ∷ []) site ≡ gone 52 ∷ []
unfolding react on_recs_agg_echo_ready on_ready take_over count_ready tally bump_tally lookup put
node_leaves = refl

left : (after_all (ready ∷ ready ∷ ready ∷ [])).peers_current ≡ 51 ∷ 53 ∷ []
unfolding react_all react on_recs_agg_echo_ready on_agg on_echo on_ready send_ready take_over leave
    refresh staying count_echo count_ready send tally bump_tally lookup put
left = refl

react_all-readies_example :
    (readies 1 (after_all (echo ∷ echo ∷ echo ∷ [])).sent ≡ 0)
    ⊎ ((readies 1 (after_all (echo ∷ echo ∷ echo ∷ [])).sent ≡ 1)
        × (0 < 3)
        × (3 ≤ tally 1 (after_all (echo ∷ echo ∷ echo ∷ [])).reconfig_echo_counter))
unfolding react_all react on_recs_agg_echo_ready on_agg on_echo on_ready send_ready take_over leave
    refresh staying count_echo count_ready send tally bump_tally lookup put
react_all-readies_example =
    react_all-readies 1 (echo ∷ echo ∷ echo ∷ []) site (after_all (echo ∷ echo ∷ echo ∷ []))
      (omega arith) refl

-- Two echoes, the AGG and the last two echoes: the third to be counted was not an echo.
react_all-agg_silent_example :
    readies 1 (after_all (echo ∷ echo ∷ phase my_agg request 1 ∷ echo ∷ echo ∷ [])).sent
    ≡ readies 1 (after_all (echo ∷ echo ∷ [])).sent
unfolding react_all react on_recs_agg_echo_ready on_agg on_echo on_ready send_ready take_over leave
    refresh staying count_echo count_ready send tally bump_tally lookup put
react_all-agg_silent_example =
    react_all-agg_silent request 1 (echo ∷ echo ∷ []) (after_all (echo ∷ echo ∷ []))
      (after_all (echo ∷ echo ∷ phase my_agg request 1 ∷ echo ∷ echo ∷ [])) refl (omega arith) refl
