-- ===== src/Queue/Steps/Example.antt =====
-- Names of sets for the examples.
use asynq.Common.{refl}
use asynq.Queue.{SetNames}

-- Each group has one set, under the group's own name.
abbrev pub one_name : SetNames
one_name = record {
  set_key = λ group id. group;
  group_of = λ key. key;
  group_of-set_key = λ group id. refl;
}
