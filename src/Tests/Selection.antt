-- ===== src/Tests/Selection.antt =====
-- Which proxy is chosen, at concrete inputs.
use opencode_proxy_api.Base.{true, false, ◌≡◌, refl, arith}
use opencode_proxy_api.Pool.{available, select_index}
use opencode_proxy_api.Pool.Select.{place, select_index_first}
use opencode_proxy_api.Tests.{down_pool}

first_up : available down_pool 5 0 ≡ true
unfolding available
first_up = refl

second_down : available down_pool 5 1 ≡ false
unfolding available
second_down = refl

select_index_first_example : select_index down_pool 5 1 ≡ place down_pool 5 1 1
select_index_first_example =
    select_index_first down_pool 5 1 1 (omega arith) (omega arith) first_up (second_down, tt)
