-- ===== src/UsbDescriptors.antt =====
-- The string descriptors of src/firmware/usb_descriptors.c.
use msx_pulse.Shared.{
  ℕ, ◌+◌, ◌*◌, ◌==◌, leb, if◌then◌else◌, get_or, Option, none, some, List, [], ◌∷◌, Text, codes,
  take, length,
}

abbrev string_desc_arr : List Text
string_desc_arr =
    (0x09 ∷ 0x04 ∷ [])
    ∷ codes "msxdoc"
    ∷ codes "MSX Diagnostic Cartridge"
    ∷ codes "000001"
    ∷ codes "msxdoc CDC"
    ∷ []

-- `TUSB_DESC_STRING` and the length in bytes, in one word.
abbrev header : (chr_count : ℕ) → ℕ
header chr_count = 0x0300 + (2 * chr_count + 2)

-- `tud_descriptor_string_cb`: the words that the USB stack reads of `desc_str`, or a null pointer.
unfoldable pub string_descriptor : (index : ℕ) → Option (List ℕ)
string_descriptor index =
    let str = take 31 (get_or string_desc_arr index []) in
    if index == 0
    then some (header 1 ∷ 0x0409 ∷ [])
    else if leb (length string_desc_arr) index
    then none
    else some (header (length str) ∷ str)
