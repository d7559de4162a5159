-- ===== src/Config/Tests.antt =====
-- Environments, and what a configuration makes of them.
use Prim.Native.String.{len}
use task_flow_alisha_sharma.Common.{
  ◌≤◌, ◌^◌, ◌+◌, String, ◌≡◌, ◌≢◌, ◌↔◌, refl, none, if◌then◌else◌, ◌==◌,
}
use task_flow_alisha_sharma.Common.Int.{pos, negsuc}
use task_flow_alisha_sharma.Common.Exec.{ok}
use task_flow_alisha_sharma.Config.{Getenv, read_config, load, to_int32}
use task_flow_alisha_sharma.Config.Laws.{load_iff}

abbrev minimal : Getenv
minimal key =
    if key == "JWT_SECRET" then "0123456789abcdef" else if key == "DB_PASSWORD" then "pw" else ""

load_iff_example :
    (load (λ s. none) minimal ≡ ok (read_config (λ s. none) minimal))
    ↔ ((16 ≤ len "0123456789abcdef") × (◌≢◌ {A = String} "pw" ""))
load_iff_example = load_iff (λ s. none) minimal

wraps : to_int32 (pos (2 ^ 32 + 3)) ≡ pos 3
unfolding to_int32
wraps = refl

turns_negative : to_int32 (pos (2 ^ 31)) ≡ negsuc 2_147_483_647
unfolding to_int32
turns_negative = refl
