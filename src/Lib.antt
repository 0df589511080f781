-- ===== src/Lib.antt =====
-- The firmware of a diagnostic cartridge for MSX computers, src/firmware: what it concludes from the
-- bus, how it captures the bus, the round of its boot diagnostic and the reports of it, its buttons,
-- menu, display and serial console, and the loops of its two cores.
--
-- How the parts interact. On Core 1 (Main.Loop, `core1_round`) the passive sampler (BusProbe)
-- classifies the pins, unless a round of the boot diagnostic is capturing: then Core 1 drains the
-- DMA rings, bus cycles to the detector of boot phases (BootCapture to BootDetect), driven reads to
-- the analyser (TxnCapture to BusIntegrity). On Core 0 a round of the main loop (Main.Loop,
-- `loop_round`) exchanges lines with the host (UsbSerial); ticks the state machine of the diagnostic
-- round (BootDiag), which arms and stops the captures, triages what was found and freezes the
-- result; averages a rail (AdcRails) and debounces power faults (Main); polls the buttons (Buttons),
-- whose events move the menu (Ui), from where a round is started; carries out one command (Console),
-- which prints lines and reports (Report, Alog) and may start a round or pulse the reset line
-- (MsxRuntime); and draws the page that is shown (Ui, Oled). MsxAutoreset decides when the reset
-- line is pulsed after power-on, and CartServe answers the bus from a ROM image; the main loop uses
-- neither yet.
--
-- Which file models what, by paths from the repository's root:
-- BusIntegrity      src/firmware/bus_integrity.c and .h: bus_integrity_feed is `feed`, the verdicts
--                   keep their names without the prefix.
-- BusProbe          src/firmware/bus_probe.c and .h: bus_probe_sample_once is `sample_once`, over a
--                   list of what each round of its loop reads.
-- BootDetect        src/firmware/boot_detect.c and .h: boot_detect_feed is `feed`; BootDetect.Names
--                   has the texts.
-- BootCapture       src/firmware/boot_capture.c: the decoders, `drain_ring`, `drain`. The static
--                   variables of a ring are a `Cursor`. BootCapture.Arming has the calls that arm
--                   the rings.
-- TxnCapture        src/firmware/txn_capture.c: `drain`; TxnCapture.Arming has the calls that arm the
--                   ring.
-- BootDiag          src/firmware/boot_diag.c and .h: boot_diag_tick is `tick`, its cases are the
--                   `tick_` functions, boot_diag_core1_drain_step is `core1_drain_step`.
-- Report            the reports of src/firmware/boot_diag.c and boot_detect.c: boot_diag_format_report
--                   is `format_report`, boot_diag_possible_causes is `possible_causes`,
--                   boot_detect_format_report is `format_detect`, all over the buffer of `appendf`.
-- MsxAutoreset      src/firmware/msx_autoreset.c and .h: `step`.
-- MsxRuntime        src/firmware/msx_runtime.c and .h, and the hardware side of cmd_reset in
--                   src/firmware/cmd_dispatch.c: the functions keep their names without the prefix.
-- Alog              src/firmware/alog.c and .h: the access log; Alog.Print has what it prints.
-- UsbSerial         src/firmware/usb_serial.c and the rings of src/firmware/ipc.h: `push` and `pop`
--                   are what is done under a ring's lock, usb_serial_task is `task`,
--                   usb_serial_parse_cmd is `parse_cmd`.
-- UsbDescriptors    src/firmware/usb_descriptors.c: tud_descriptor_string_cb is `string_descriptor`.
-- Console           src/firmware/cmd_dispatch.c and .h: cmd_dispatch keeps its name, and so do the
--                   commands, as the lines they print (Console.Lines, Console.Probe, Console.Boot).
-- Ui                src/firmware/ui.c and .h: ui_handle_btn is `handle_btn`, the change of state in
--                   ui_render is `render`, the whole of it is `ui_render` in Ui.Render; the pages are
--                   in Ui.Pages and Ui.Diag, wrap_rows in Ui.Wrap.
-- Buttons           src/firmware/buttons.c and .h: buttons_poll is `poll`, its passes are functions.
--                   Buttons.Phantom, Once and Hold are about sequences of polls.
-- AdcRails          src/firmware/adc_rails.c: adc_rails_sample is `sample`, and AdcRails.Volts has the
--                   voltages, adc_rails_snapshot as `snapshot`.
-- Main              src/firmware/main.c: `poll_rails` is the debounce of power faults; Main.Loop has
--                   the rounds of the two loops, with a `step_` function for each section of the body,
--                   and Main.Startup what comes before them, and the turns that the cores take.
--                   Main.Loop.OldLog, OldResults and Requests are about several parts at once: the
--                   access log in a pass, the display when a round starts, and what starts a round.
-- Oled              src/firmware/oled.c: the `fb_` functions and the font; Oled.Probe and Oled.Wire
--                   have the probe, the set-up and the flush.
-- CartServe         src/firmware/rom_lut.c and .h and src/firmware/cart_serve.c: `rom_lut_build`,
--                   the image part of cart_serve_init is `serve_init`, its other part is
--                   `pipeline_init` in CartServe.Pipeline.
-- Hardware          the calls of the board's SDK that src/firmware makes, as values.
-- Shared            Boolean tests, lists, bits of words, wrapping 32-bit arithmetic, signed numbers,
--                   texts and the conversions of printf.
--
-- How the state is modelled. The static variables of a file are a record that its functions take and
-- return. A function that acts on the hardware returns the list of its SDK calls in order; what the
-- SDK answers (levels, clocks, ring contents, write addresses, claimed channels, registers) is an
-- argument. Machine words are natural numbers with their wrap-around written out. A text is the list
-- of its character codes up to the NUL. The type of the floats, their operations, and the function
-- that prints one with a width and a precision are parameters of a section, and no law of them is
-- assumed. A step of one core, and a section under a spin lock, is atomic: in BootDiag.Invariant the
-- ticks of Core 0 and the drains of Core 1 interleave in any order, and in Main.Startup the rounds
-- of Core 0 and the drains of Core 1, but a drain does not overlap a tick or a round. The loop of usb_serial_task, which takes the lock
-- of a ring for each line, is one step, and one snapshot of the bus stands for both calls of
-- bus_probe_get in a round of the main loop.
--
-- Loops and fuel. The loop of drain_ring has the fuel 4097, one round more than the ring has words;
-- the loop of usb_serial_task over its output ring has the fuel 32, one more than the ring can hold;
-- the loop of wrap_rows has one round more than its text has characters. That these are enough is
-- part of the results on them. The loops over the lines of a report have the size of the buffer as
-- fuel, of which every line spends at least one; the text in the buffer is shorter. A decimal has
-- the fuel of ten digits, which hold every uint32_t. The population count and the sampling loops
-- recur on the number and on the list of rounds. All other loops have fixed bounds.
--
-- Not modelled: the PIO programs, which are not C; what DMA and PIO do once they are set up, beyond
-- the words in a ring; of the start-up the watchdog, the clocks, the priorities of interrupts, the
-- converter, the PWM slice and the spin locks; the constant descriptor tables of the USB stack. Of
-- the SDK's calls the clock dividers of state machines and the asserts are left out.
pub mod Shared
pub mod BusIntegrity
pub mod BusProbe
pub mod BootDetect
pub mod BootCapture
pub mod TxnCapture
pub mod BootDiag
pub mod MsxAutoreset
pub mod UsbSerial
pub mod Ui
pub mod Buttons
pub mod Main
pub mod Oled
pub mod CartServe
pub mod Report
pub mod Hardware
pub mod Alog
pub mod MsxRuntime
pub mod Console
pub mod AdcRails
pub mod UsbDescriptors
