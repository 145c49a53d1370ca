-- ===== src/Tests/Buffers.antt =====
-- The linked buffer at fixed inputs.
use golang_programming.Prelude.{ℕ, ◌≡◌, some, List, [], ◌∷◌}
use golang_programming.LinkedBuf.{new_buf}
use golang_programming.LinkedBuf.Runs.{
  Op, calls, spec_calls, calls-spec_calls, inserts, removes, fronts, lists, empties, flushes,
}

abbrev ops : List (Op ℕ)
ops = inserts 1 ∷ inserts 2 ∷ removes ∷ fronts ∷ lists ∷ removes ∷ empties ∷ flushes ∷ removes ∷ []

calls-spec_calls_example : calls ops new_buf ≡ some (spec_calls ops [])
calls-spec_calls_example = calls-spec_calls ops
