-- ===== src/Semaphore/Tests.antt =====
-- Runs of the semaphore, and the theorems at them.
use asynq.Common.{◌≤◌, ◌≡◌, refl, some}
use asynq.Redis.{zcard, zrem_all}
use asynq.Redis.Model.{model}
use asynq.Semaphore.{acquired, refused, expired, acquire_cmd, acquire}
use asynq.Semaphore.Bounds.{unused, next, acquires, tokens_bounded}

-- One token: task 1 takes it until time 20.
abbrev one_out : model.Zset
one_out = (acquire model 1 10 (some 20) (some 1) model.zempty).0

second_refused : (acquire model 1 15 (some 30) (some 2) one_out).1 ≡ refused
unfolding acquire acquire_cmd expired zrem_all model
second_refused = refl

after_deadline : (acquire model 1 21 (some 30) (some 2) one_out).1 ≡ acquired
unfolding acquire acquire_cmd expired zrem_all model
after_deadline = refl

tokens_bounded_example : zcard model one_out ≤ 1
tokens_bounded_example = tokens_bounded model (next unused (acquires 10 (some 20) (some 1)))
