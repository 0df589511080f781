-- ===== src/BootDetect/Names.antt =====
-- The texts of boot_detect.c: names of phases and the likely failure area.
use Prim.Native.String.{String}
use msx_pulse.Shared.{
  ℕ, zero, suc, ◌<◌, ◌≡◌, subst, ◌≢◌, Bool, true, false, List, if◌then◌else◌, if_keeps, ℤ, pos,
  negsuc, ◌==ℤ◌, arith,
}
use msx_pulse.BootDetect.{BootDetect, BusEvent, reset, feed_all}
use msx_pulse.BootDetect.Derived.{IsHighest, confirmed_lem}

unfoldable pub phase_name : ℕ → String
phase_name zero = "Reset vector fetch"
phase_name (suc zero) = "BIOS early init"
phase_name (suc (suc zero)) = "Slot/RAM probe"
phase_name (suc (suc (suc zero))) = "BIOS init complete"
phase_name (suc (suc (suc (suc zero)))) = "BIOS->BASIC handoff"
phase_name (suc (suc (suc (suc (suc zero))))) = "BASIC cold start"
phase_name (suc (suc (suc (suc (suc (suc zero)))))) = "BASIC BIOS vectors"
phase_name (suc (suc (suc (suc (suc (suc (suc zero))))))) = "VDP init activity"
phase_name (suc (suc (suc (suc (suc (suc (suc (suc zero)))))))) = "Cartridge scan"
phase_name _ = "?"

unfoldable pub phase_short_name : ℕ → String
phase_short_name zero = "Reset vector"
phase_short_name (suc zero) = "BIOS early init"
phase_short_name (suc (suc zero)) = "Slot/RAM probe"
phase_short_name (suc (suc (suc zero))) = "BIOS init done"
phase_short_name (suc (suc (suc (suc zero)))) = "BASIC handoff"
phase_short_name (suc (suc (suc (suc (suc zero))))) = "BASIC coldstart"
phase_short_name (suc (suc (suc (suc (suc (suc zero)))))) = "BASIC BIOS vecs"
phase_short_name (suc (suc (suc (suc (suc (suc (suc zero))))))) = "VDP init"
phase_short_name (suc (suc (suc (suc (suc (suc (suc (suc zero)))))))) = "Cart scan"
phase_short_name _ = "?"

-- The switch on `last_confirmed` of `boot_detect_failure_category`.
unfoldable pub category : ℤ → Bool → String
category (negsuc zero) header_read = "CPU/reset/clock/BIOS ROM sel/addr/data bus"
category (pos zero) header_read = "BIOS ROM fetch, jump exec, addr decoding"
category (pos (suc zero)) header_read = "Early BIOS setup, PPI access, slot reg access"
category (pos (suc (suc zero))) header_read = "Slot sel, expanded-slot, RAM visibility/integrity"
category (pos (suc (suc (suc zero)))) header_read =
    "BASIC ROM mapping, slot config, ROM bus visibility"
category (pos (suc (suc (suc (suc zero))))) header_read = "BASIC ROM mapping/visibility at 7C76"
category (pos (suc (suc (suc (suc (suc zero)))))) header_read =
    "BASIC work RAM, stack area, system variables"
category (pos (suc (suc (suc (suc (suc (suc zero))))))) header_read =
    "BIOS service routine, screen init, VDP path"
category (pos (suc (suc (suc (suc (suc (suc (suc zero)))))))) header_read =
    "BASIC init after display, keyboard/input, work RAM"
category (pos (suc (suc (suc (suc (suc (suc (suc (suc zero))))))))) header_read =
    if header_read
    then "Reached cartridge discovery - boot OK to header"
    else "Cart slot sel, cart ROM mapping, cart bus response"
category _ header_read = "?"

unfoldable pub failure_category : BootDetect → String
unfolding category
failure_category s = category s.last_confirmed s.header_read

unfoldable pub failure_category_passive : BootDetect → String
unfolding failure_category
failure_category_passive s =
    if s.last_confirmed ==ℤ pos 8
    then "Native boot reached cart scan - CPU/RAM/ROM/BASIC path OK"
    else failure_category s

phase_name-known : (p : ℕ) → p < 9 → phase_name p ≢ "?"
unfolding phase_name
phase_name-known zero h e = cc
phase_name-known (suc zero) h e = cc
phase_name-known (suc (suc zero)) h e = cc
phase_name-known (suc (suc (suc zero))) h e = cc
phase_name-known (suc (suc (suc (suc zero)))) h e = cc
phase_name-known (suc (suc (suc (suc (suc zero))))) h e = cc
phase_name-known (suc (suc (suc (suc (suc (suc zero)))))) h e = cc
phase_name-known (suc (suc (suc (suc (suc (suc (suc zero))))))) h e = cc
phase_name-known (suc (suc (suc (suc (suc (suc (suc (suc zero)))))))) h e = cc
phase_name-known (suc (suc (suc (suc (suc (suc (suc (suc (suc k))))))))) h e = omega arith

category-known :
    (flags : ℕ) (last : ℤ) (header_read : Bool)
    → IsHighest 9 flags last
    → category last header_read ≢ "?"
unfolding category
category-known flags (negsuc zero) header_read h e = cc
category-known flags (negsuc (suc m)) header_read h e = absurd (omega arith)
category-known flags (pos zero) header_read h e = cc
category-known flags (pos (suc zero)) header_read h e = cc
category-known flags (pos (suc (suc zero))) header_read h e = cc
category-known flags (pos (suc (suc (suc zero)))) header_read h e = cc
category-known flags (pos (suc (suc (suc (suc zero))))) header_read h e = cc
category-known flags (pos (suc (suc (suc (suc (suc zero)))))) header_read h e = cc
category-known flags (pos (suc (suc (suc (suc (suc (suc zero))))))) header_read h e = cc
category-known flags (pos (suc (suc (suc (suc (suc (suc (suc zero)))))))) header_read h e = cc
category-known flags (pos (suc (suc (suc (suc (suc (suc (suc (suc zero))))))))) true h e = cc
category-known flags (pos (suc (suc (suc (suc (suc (suc (suc (suc zero))))))))) false h e = cc
category-known flags (pos (suc (suc (suc (suc (suc (suc (suc (suc (suc k)))))))))) header_read h e =
    absurd (omega (arith, h.0))

-- No state that the detector reaches is reported with the unknown text "?": neither the likely
-- failure area, actively or passively, nor the name of a phase that `last_confirmed` points to.
pub category_lem :
    (es : List BusEvent)
    → let s = feed_all reset es in
      (failure_category s ≢ "?")
      × (failure_category_passive s ≢ "?")
      × ((p : ℕ) → s.last_confirmed ≡ pos p → phase_name p ≢ "?")
unfolding failure_category failure_category_passive
category_lem es =
    let s = feed_all reset es in
    let v = confirmed_lem es in
    let known : failure_category s ≢ "?" =
      category-known s.phase_flags s.last_confirmed s.header_read v.highest in
    (
      known,
      if_keeps (λ (t : String). t ≢ "?") (s.last_confirmed ==ℤ pos 8) (λ e. cc) known,
      λ p e. phase_name-known p (subst (IsHighest 9 s.phase_flags) e v.highest).0,
    )
