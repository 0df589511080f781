-- ===== src/Main/Startup/Tests.antt =====
-- A BOOT command in the first round after start-up, and rounds of the loop at the end of a diagnostic
-- round.
use msx_pulse.Shared.{
  ℕ, ◌-◌, ◌*◌, ◌/◌, ltb, leb, ◌≡◌, refl, true, false, List, [], Text, codes, decimal, pos,
  replicate, some, zero, length, arith,
}
use msx_pulse.BusProbe.{Snapshot, active, running, ctrl_count}
use msx_pulse.UsbSerial.Ring.{Line}
use msx_pulse.AdcRails.Volts.{Floats}
use msx_pulse.Hardware.{HwCall}
use msx_pulse.Console.Lines.{RailSnapshot}
use msx_pulse.BootDetect
use msx_pulse.BootCapture
use msx_pulse.BootCapture.Drain.{shown}
use msx_pulse.BootCapture.Words.{decoded, decode_alog}
use msx_pulse.TxnCapture.Arming as TxnArming
use msx_pulse.BootDiag.{Diag, done, pass_begin, tick}
use msx_pulse.BootDiag.Drain.{silent}
use msx_pulse.Hardware.Trace.{filled_after}
use msx_pulse.MsxRuntime.{Runtime, power_up}
use msx_pulse.UsbSerial.Command.{ParsedCmd, boot}
use msx_pulse.Console.{cmd_dispatch}
use msx_pulse.Oled.{fb_clear, fb_putglyph}
use msx_pulse.Ui
use msx_pulse.Ui.{btn_select, settings, progress, handle_btn, on_settings}
use msx_pulse.Ui.Menu.{IsUi}
use msx_pulse.Ui.Diag.{render_results}
use msx_pulse.Ui.Render.{heartbeat}
use msx_pulse.Main.Loop.{Core0, Input, press, step_oled, step_diag, carry_out_all, loop_round}
use msx_pulse.Main.Loop.OldLog.{stale_log_lem}
use msx_pulse.Main.Loop.OldResults.{old_results_lem}
use msx_pulse.Main.Loop.Requests.{requests_lem}
use msx_pulse.Main.Loop.Sound.{IsSound, loop_round_lem}
use msx_pulse.Main.Startup.{start_up, Turns, core0, here, then_turn}
use msx_pulse.Main.Startup.Reached.{start_up-IsSound, turns_lem}

-- Numbers in millionths, without a sign, in the place of floats.
abbrev one : ℕ
one = 1000000

abbrev micro : Floats ℕ
micro = record {
  of_nat = λ n. n * one;
  literal = λ n d. n * one / d;
  neg = λ a. a;
  sub = λ a b. a - b;
  mul = λ a b. a * b / one;
  div = λ a b. a * one / b;
  lt = ltb;
  le = leb;
}

abbrev in_micro : (width precision : ℕ) → ℕ → Text
in_micro w p v = decimal (v / one)

abbrev rails : RailSnapshot ℕ
rails = record {
  v5 = 5;
  v12 = 12;
  vm12 = 12;
  statuses = record { status_5v = 0; status_12v = 0; status_m12v = 0 };
}

abbrev live_bus : Snapshot
live_bus = record {
  addr = replicate 16 active;
  data_lines = replicate 8 active;
  ctrl = replicate ctrl_count active;
  clk_hz = 3579545;
  reset = running;
  timestamp_ms = 0;
}

-- The user types BOOT; every interval of the loop has passed.
abbrev typed : Input in_micro micro
typed = record {
  now_ms = 1000;
  connected = true;
  up = λ i. true;
  chars = codes "BOOT\n";
  snap = live_bus;
  claimed = record {
    log_offset = 0;
    log_ch = pos 0;
    mem_offset = 8;
    io_offset = 16;
    mem_ch = pos 1;
    io_ch = pos 2;
    txn_offset = 0;
    txn_ch = pos 3;
  };
  raw = 2048;
  btn_now_ms = 1000;
  levels = record { up_raw = true; down_raw = true; sel_raw = true };
  reads = record {
    rail_snap = rails;
    probe = live_bus;
    log = λ i. 0;
    captured = 0;
    registers = record {
      sm_pc = 0;
      sm_instr = 0;
      fdebug = 0;
      flevel = 0;
      ctrl = 0;
      dma_wa = 0;
      dma_count = 0;
      dma_busy = false;
      gpio_in = 0;
    };
    pin_start_us = 0;
    pin_rounds = [];
    readings = record {
      r_pre = 1;
      r_asserted = 0;
      r_mid = 0;
      r_post = 1;
      cap_pre = 0;
      cap_asserted = 0;
      cap_mid = 0;
      cap_post = 0;
    };
    sram = λ i. 255;
  };
  oled_present = true;
  oled_now_ms = 1000;
}

abbrev started : Core0 in_micro micro
started = start_up in_micro micro 2048 0x20010000

first_round :
    (r : Core0 in_micro micro × List Line × List HwCall) × (loop_round in_micro micro typed started
      ≡ some r)
    × IsSound in_micro micro r.0
first_round =
    loop_round_lem in_micro micro typed started (start_up-IsSound in_micro micro 2048 0x20010000)

first_turn : Turns in_micro micro started first_round.0.0
unfolding start_up
first_turn = then_turn here (core0 typed first_round.0 refl first_round.1)

turns_example :
    IsSound in_micro micro first_round.0.0
    × ((r : Core0 in_micro micro × List Line × List HwCall) × (loop_round in_micro micro typed
            first_round.0.0
          ≡ some r))
turns_example = turns_lem in_micro micro 2048 0x20010000 first_round.0.0 typed first_turn

-- A diagnostic round is over, and SELECT is about to be pressed on the first row of the settings.
abbrev over : Core0 in_micro micro
over = record started {
  ui = record started.ui { level = settings; selector_idx = 0; n_pages = 5 };
  world = record started.world { diag = record started.world.diag { inited = true; phase = done } };
}

over-IsUi : IsUi over.ui
unfolding start_up Ui.init
over-IsUi = record {
  pages = refl;
  page = omega arith;
  selector = omega arith;
  diag_page = omega arith;
  level = refl;
  settings_first = λ p. refl;
  round_first = λ p. cc;
}

abbrev boot_typed : ParsedCmd
boot_typed = record { type = boot; arg_addr = 0 }

requests_example :
    ((press in_micro micro btn_select over).world.diag.request ≡ true)
    × ((cmd_dispatch in_micro boot_typed typed.reads over.world).0.diag.request ≡ true)
unfolding start_up Ui.init
requests_example =
    requests_lem in_micro micro btn_select over boot_typed typed.reads over.world over-IsUi

select_starts : (handle_btn btn_select over.ui).1 ≡ true
unfolding handle_btn on_settings start_up Ui.init
select_starts = refl

old_results_example :
    let pressed = press in_micro micro btn_select over in
    ((step_oled in_micro micro typed pressed).fb
      ≡ render_results 0 over.world.diag.result (fb_putglyph 0 0 (heartbeat 1000) fb_clear))
    × ((step_oled in_micro micro typed (step_diag in_micro micro typed pressed).0).ui.diag_view
        ≡ progress)
unfolding start_up
old_results_example =
    old_results_lem in_micro micro btn_select typed typed over refl refl select_starts refl refl

-- A pass is about to begin, with the captures armed and the channels that a first round claims.
abbrev pass_due : Diag
pass_due = record over.world.diag {
  phase = pass_begin;
  capture = record over.world.diag.capture { armed = true };
}

abbrev claimed : Runtime
claimed = record (power_up 0x20010000) {
  alog = record { pio_offset = 0; dma_ch = pos 0 };
  capture = record { mem_off = 8; io_off = 16; mem_dma = pos 1; io_dma = pos 2 };
}

abbrev txn_claimed : TxnArming.Arming
txn_claimed = record { off = 0; dma = pos 3 }

-- The two header reads of a cartridge.
abbrev header_log : ℕ → ℕ
header_log zero = 0x414000
header_log _ = 0x424001

stale_log_example :
    let ticked = tick 5 live_bus pass_due in
    let left =
      filled_after
        (pos 0)
        (carry_out_all typed.claimed ticked.1 (claimed, txn_claimed)).1
        (record { words = header_log; count = 2 }) in
    let es = decoded decode_alog header_log 0 2 in
    (left ≡ record { words = header_log; count = 2 })
    × ((c' : BootCapture.Capture) × (BootCapture.drain
            (shown (silent 0x20000000) (silent 0x20004000) left.words left.count 100)
            ticked.0.capture
            ticked.0.detect
          ≡ some (BootDetect.feed_all pass_due.detect es, length es, c')))
unfolding start_up
stale_log_example =
    stale_log_lem 5 live_bus pass_due typed.claimed claimed txn_claimed
      (record { words = header_log; count = 2 }) 100 0x20000000 0x20004000 refl refl
      (record { mem = refl; io = refl; txn = refl }) (omega arith) (omega arith) (omega arith)
