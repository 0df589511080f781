-- ===== src/UsbSerial/Command.antt =====
-- The parser of commands, `usb_serial_parse_cmd`, with what it uses of the C library: `tolower` in
-- the C locale and `strtoul` with an unsigned long of 32 bits.
pub mod Spelling
use msx_pulse.Shared.{
  ℕ, zero, suc, ◌+◌, ◌-◌, ◌*◌, ◌%◌, ◌^◌, Bool, true, false, not, ◌&&◌, ◌||◌, ◌==◌, ltb, leb,
  if◌then◌else◌, Option, none, some, List, [], ◌∷◌,
}
use msx_pulse.UsbSerial.Ring.{Line}

-- `cmd_type_t`
pub data CmdType : Type 0 where
  help status reset dump_hex rails update emu_off pins : CmdType
  alog_status alog_reset alog_slot alog_debug boot dash unknown : CmdType

-- `parsed_cmd_t`
pub record ParsedCmd : Type 0 where
  pub type : CmdType
  pub arg_addr : ℕ

abbrev pub tolower : ℕ → ℕ
tolower c = if leb 65 c && leb c 90 then c + 32 else c

-- `str_tolower` to a buffer of `n + 1` bytes.
unfoldable pub str_tolower : ℕ → Line → Line
str_tolower zero src = []
str_tolower (suc n) [] = []
str_tolower (suc n) (c ∷ src) = tolower c ∷ str_tolower n src

abbrev pub is_blank : ℕ → Bool
is_blank c = c == 32 || c == 9

abbrev pub is_trailing : ℕ → Bool
is_trailing c = c == 10 || c == 13 || c == 32

unfoldable pub skip : (ℕ → Bool) → Line → Line
skip p [] = []
skip p (c ∷ s) = if p c then skip p s else c ∷ s

abbrev pub is_empty : Line → Bool
is_empty [] = true
is_empty (c ∷ s) = false

unfoldable pub trim_end : Line → Line
trim_end [] = []
trim_end (c ∷ s) = let rest = trim_end s in if is_trailing c && is_empty rest then [] else c ∷ rest

-- `strcmp(s, t) == 0`
unfoldable pub same_text : Line → Line → Bool
same_text [] [] = true
same_text [] (d ∷ t) = false
same_text (c ∷ s) [] = false
same_text (c ∷ s) (d ∷ t) = c == d && same_text s t

-- What follows the prefix, if the text has it (`strncmp` with the prefix's length).
unfoldable pub after_prefix : Line → Line → Option Line
after_prefix [] t = some t
after_prefix (c ∷ p) [] = none
after_prefix (c ∷ p) (d ∷ t) = if c == d then after_prefix p t else none

abbrev pub is_space : ℕ → Bool
is_space c = c == 32 || leb 9 c && leb c 13

-- The value of a digit, 36 for a character that is none.
abbrev pub digit_value : ℕ → ℕ
digit_value c =
    if leb 48 c && leb c 57
    then c - 48
    else if leb 97 c && leb c 122
    then c - 87
    else if leb 65 c && leb c 90
    then c - 55
    else 36

unfoldable pub digits : ℕ → ℕ → Line → ℕ
digits base acc [] = acc
digits base acc (c ∷ s) =
    if ltb (digit_value c) base then digits base (acc * base + digit_value c) s else acc

abbrev saturated : ℕ → ℕ
saturated n = if ltb n (2 ^ 32) then n else 2 ^ 32 - 1

-- A minus sign negates a value that fits.
abbrev negated : ℕ → ℕ
negated n = if ltb n (2 ^ 32) then (2 ^ 32 - n) % 2 ^ 32 else 2 ^ 32 - 1

-- `0x` before a hexadecimal digit is skipped.
abbrev starts_hex : Line → Bool
starts_hex (z ∷ x ∷ d ∷ s) = z == 48 && (x == 120 || x == 88) && ltb (digit_value d) 16
starts_hex _ = false

abbrev drop_two : Line → Line
drop_two (z ∷ x ∷ s) = s
drop_two s = s

abbrev skip_0x : ℕ → Line → Line
skip_0x base s = if base == 16 && starts_hex s then drop_two s else s

abbrev signed : ℕ → Line → ℕ
signed base [] = 0
signed base (c ∷ s) =
    if c == 45
    then negated (digits base 0 (skip_0x base s))
    else if c == 43
    then saturated (digits base 0 (skip_0x base s))
    else saturated (digits base 0 (skip_0x base (c ∷ s)))

-- `strtoul(s, NULL, base)`
abbrev strtoul : ℕ → Line → ℕ
strtoul base s = signed base (skip is_space s)

-- The words of the parser, in ASCII.
abbrev help_text : Line
help_text = 104 ∷ 101 ∷ 108 ∷ 112 ∷ []

abbrev status_text : Line
status_text = 115 ∷ 116 ∷ 97 ∷ 116 ∷ 117 ∷ 115 ∷ []

abbrev reset_text : Line
reset_text = 114 ∷ 101 ∷ 115 ∷ 101 ∷ 116 ∷ []

abbrev rails_text : Line
rails_text = 114 ∷ 97 ∷ 105 ∷ 108 ∷ 115 ∷ []

abbrev update_text : Line
update_text = 117 ∷ 112 ∷ 100 ∷ 97 ∷ 116 ∷ 101 ∷ []

abbrev emu_off_text : Line
emu_off_text = 101 ∷ 109 ∷ 117 ∷ 32 ∷ 111 ∷ 102 ∷ 102 ∷ []

abbrev pins_text : Line
pins_text = 112 ∷ 105 ∷ 110 ∷ 115 ∷ []

abbrev boot_text : Line
boot_text = 98 ∷ 111 ∷ 111 ∷ 116 ∷ []

abbrev dash_text : Line
dash_text = 100 ∷ 97 ∷ 115 ∷ 104 ∷ []

abbrev dump_text : Line
dump_text = 100 ∷ 117 ∷ 109 ∷ 112 ∷ []

abbrev alog_text : Line
alog_text = 97 ∷ 108 ∷ 111 ∷ 103 ∷ []

abbrev debug_text : Line
debug_text = 100 ∷ 101 ∷ 98 ∷ 117 ∷ 103 ∷ []

abbrev plain : CmdType → ParsedCmd
plain t = record { type = t; arg_addr = 0 }

abbrev skip_dollar : Line → Line
skip_dollar [] = []
skip_dollar (c ∷ s) = if c == 36 then s else c ∷ s

abbrev ends_or_blank : Line → Bool
ends_or_blank [] = true
ends_or_blank (c ∷ s) = c == 32

unfoldable pub parse_dump : Line → ParsedCmd
parse_dump rest = record {
  type = dump_hex;
  arg_addr = strtoul 16 (skip_dollar (skip (λ c. c == 32) rest)) % 2 ^ 16;
}

pub parse_alog : Line → ParsedCmd
parse_alog rest =
    let arg = skip (λ c. c == 32) rest in
    if not (ends_or_blank rest)
    then plain unknown
    else if is_empty arg
    then plain alog_status
    else if same_text arg reset_text
    then plain alog_reset
    else if same_text arg debug_text
    then plain alog_debug
    else record { type = alog_slot; arg_addr = strtoul 10 arg % 2 ^ 16 }

abbrev parse_argument : Option Line → Option Line → ParsedCmd
parse_argument (some rest) _ = parse_dump rest
parse_argument none (some rest) = parse_alog rest
parse_argument none none = plain unknown

-- The comparisons, on the trimmed line.
unfoldable pub parse_words : Line → ParsedCmd
parse_words p =
    if same_text p help_text
    then plain help
    else if same_text p status_text
    then plain status
    else if same_text p reset_text
    then plain reset
    else if same_text p rails_text
    then plain rails
    else if same_text p update_text
    then plain update
    else if same_text p emu_off_text
    then plain emu_off
    else if same_text p pins_text
    then plain pins
    else if same_text p boot_text
    then plain boot
    else if same_text p dash_text
    then plain dash
    else parse_argument (after_prefix dump_text p) (after_prefix alog_text p)

-- `usb_serial_parse_cmd` for a line that is not NULL.
unfoldable pub parse_cmd : Line → ParsedCmd
parse_cmd line = parse_words (trim_end (skip is_blank (str_tolower 63 line)))
