-- ===== src/Remapper/Keysyms.antt =====
-- src/remapper/keys.rs: the tables of keysyms and their keys.
use whykey.Prelude.{ℕ, String, List, [], ◌∷◌}

-- `LAYOUT_INVARIANT`
abbrev pub layout_invariant : List (String × ℕ)
layout_invariant =
    ("ESCAPE", 1)
    ∷ ("BACKSPACE", 14)
    ∷ ("TAB", 15)
    ∷ ("RETURN", 28)
    ∷ ("SPACE", 57)
    ∷ ("CAPS_LOCK", 58)
    ∷ ("F1", 59)
    ∷ ("F2", 60)
    ∷ ("F3", 61)
    ∷ ("F4", 62)
    ∷ ("F5", 63)
    ∷ ("F6", 64)
    ∷ ("F7", 65)
    ∷ ("F8", 66)
    ∷ ("F9", 67)
    ∷ ("F10", 68)
    ∷ ("F11", 87)
    ∷ ("F12", 88)
    ∷ ("F13", 183)
    ∷ ("F14", 184)
    ∷ ("F15", 185)
    ∷ ("F16", 186)
    ∷ ("F17", 187)
    ∷ ("F18", 188)
    ∷ ("F19", 189)
    ∷ ("F20", 190)
    ∷ ("F21", 191)
    ∷ ("F22", 192)
    ∷ ("F23", 193)
    ∷ ("F24", 194)
    ∷ ("NUM_LOCK", 69)
    ∷ ("SCROLL_LOCK", 70)
    ∷ ("PRINT", 99)
    ∷ ("PAUSE", 119)
    ∷ ("HOME", 102)
    ∷ ("UP", 103)
    ∷ ("PAGE_UP", 104)
    ∷ ("LEFT", 105)
    ∷ ("RIGHT", 106)
    ∷ ("END", 107)
    ∷ ("DOWN", 108)
    ∷ ("PAGE_DOWN", 109)
    ∷ ("INSERT", 110)
    ∷ ("DELETE", 111)
    ∷ ("MENU", 127)
    ∷ ("CONTROL_L", 29)
    ∷ ("CONTROL_R", 97)
    ∷ ("SHIFT_L", 42)
    ∷ ("SHIFT_R", 54)
    ∷ ("ALT_L", 56)
    ∷ ("SUPER_L", 125)
    ∷ ("SUPER_R", 126)
    ∷ ("XF86AUDIOMUTE", 113)
    ∷ ("XF86AUDIOLOWERVOLUME", 114)
    ∷ ("XF86AUDIORAISEVOLUME", 115)
    ∷ ("XF86AUDIOPLAY", 164)
    ∷ ("XF86AUDIONEXT", 163)
    ∷ ("XF86AUDIOPREV", 165)
    ∷ ("XF86MONBRIGHTNESSDOWN", 224)
    ∷ ("XF86MONBRIGHTNESSUP", 225)
    ∷ []

-- `KEYPAD`
abbrev pub keypad : List (String × ℕ)
keypad =
    ("KP_ENTER", 96)
    ∷ ("KP_0", 82)
    ∷ ("KP_1", 79)
    ∷ ("KP_2", 80)
    ∷ ("KP_3", 81)
    ∷ ("KP_4", 75)
    ∷ ("KP_5", 76)
    ∷ ("KP_6", 77)
    ∷ ("KP_7", 71)
    ∷ ("KP_8", 72)
    ∷ ("KP_9", 73)
    ∷ ("KP_ADD", 78)
    ∷ ("KP_SUBTRACT", 74)
    ∷ ("KP_MULTIPLY", 55)
    ∷ ("KP_DIVIDE", 98)
    ∷ ("KP_DECIMAL", 83)
    ∷ ("KP_EQUAL", 117)
    ∷ ("KP_INSERT", 82)
    ∷ ("KP_END", 79)
    ∷ ("KP_DOWN", 80)
    ∷ ("KP_PAGE_DOWN", 81)
    ∷ ("KP_LEFT", 75)
    ∷ ("KP_BEGIN", 76)
    ∷ ("KP_RIGHT", 77)
    ∷ ("KP_HOME", 71)
    ∷ ("KP_UP", 72)
    ∷ ("KP_PAGE_UP", 73)
    ∷ ("KP_DELETE", 83)
    ∷ []
