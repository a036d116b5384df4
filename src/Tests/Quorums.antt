-- ===== src/Tests/Quorums.antt =====
-- Two quorums of four replicas.
use ava_hotstuff.Prelude.{ℕ, ◌<◌, ◌/◌, refl, List, [], ◌∷◌, length, has, Distinct, arith}
use ava_hotstuff.Prelude.Counting.{common}
use ava_hotstuff.Entity.Config.{empty_config, set_majority, update_config_parameters}
use ava_hotstuff.Entity.Quorum.{IsQuorum, set_majority_overlap, update_config_parameters_overlap}
use ava_hotstuff.Tests.{four}

abbrev all : List ℕ
all = 0 ∷ 1 ∷ 2 ∷ 3 ∷ []

abbrev xs : List ℕ
xs = 0 ∷ 1 ∷ 2 ∷ []

abbrev ys : List ℕ
ys = 1 ∷ 2 ∷ 3 ∷ []

all-Distinct : Distinct all
unfolding has
all-Distinct = (refl, (refl, (refl, (refl, tt))))

xs-IsQuorum : IsQuorum (set_majority four 1) all xs
unfolding set_majority has
xs-IsQuorum = record {
  distinct = (refl, (refl, (refl, tt)));
  of_replicas = λ a h. ground (arith, h);
  enough = omega arith;
}

ys-IsQuorum : IsQuorum (set_majority four 1) all ys
unfolding set_majority has
ys-IsQuorum = record {
  distinct = (refl, (refl, (refl, tt)));
  of_replicas = λ a h. ground (arith, h);
  enough = omega arith;
}

set_majority_overlap_example : 1 < length (common xs ys)
set_majority_overlap_example =
    set_majority_overlap four 1 all xs ys (omega arith) all-Distinct refl xs-IsQuorum ys-IsQuorum

xs-IsQuorum_later : IsQuorum (update_config_parameters empty_config 3) all xs
unfolding update_config_parameters has
xs-IsQuorum_later = record {
  distinct = (refl, (refl, (refl, tt)));
  of_replicas = λ a h. ground (arith, h);
  enough = omega arith;
}

ys-IsQuorum_later : IsQuorum (update_config_parameters empty_config 3) all ys
unfolding update_config_parameters has
ys-IsQuorum_later = record {
  distinct = (refl, (refl, (refl, tt)));
  of_replicas = λ a h. ground (arith, h);
  enough = omega arith;
}

update_config_parameters_overlap_example : 3 / 3 < length (common xs ys)
update_config_parameters_overlap_example =
    update_config_parameters_overlap empty_config 3 all xs ys all-Distinct refl xs-IsQuorum_later
      ys-IsQuorum_later
