-- ===== src/Console/Tags.antt =====
-- The tags of a rail's status in STATUS and in RAILS.
use msx_pulse.Shared.{ℕ, zero, suc, ◌<◌, ◌≡◌, ◌≢◌, ◌↔◌, refl, arith, codes}
use msx_pulse.Console.Lines.{status_tag, rail_tag}

-- STATUS and RAILS give a rail the same tag exactly if it is not absent: STATUS calls an absent
-- rail a failure.
pub tags_lem :
    (s : ℕ)
    → s < 4
    → ((status_tag s ≡ rail_tag s) ↔ (s ≢ 3))
      × (status_tag 3 ≡ codes "FAIL")
      × (rail_tag 3 ≡ codes "n/c")
unfolding status_tag rail_tag codes
tags_lem zero h = ((λ e n. absurd (omega arith), λ n. refl), refl, refl)
tags_lem (suc zero) h = ((λ e n. absurd (omega arith), λ n. refl), refl, refl)
tags_lem (suc (suc zero)) h = ((λ e n. absurd (omega arith), λ n. refl), refl, refl)
tags_lem (suc (suc (suc zero))) h = ((λ e. absurd (cc), λ n. absurd (n refl)), refl, refl)
tags_lem (suc (suc (suc (suc k)))) h = absurd (omega arith)
