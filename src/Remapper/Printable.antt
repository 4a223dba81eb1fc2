-- ===== src/Remapper/Printable.antt =====
-- src/remapper/keys.rs: the table of the printable keys of the US layout.
use whykey.Prelude.{ℕ, List, [], ◌∷◌}

-- One row: the key's code, and the code points that it types without and with Shift.
pub record Printable : Type 0 where
  pub code : ℕ
  pub plain : ℕ
  pub shifted : ℕ

abbrev row : ℕ → ℕ → ℕ → Printable
row code plain shifted = record { code = code; plain = plain; shifted = shifted }

-- `US_PRINTABLE`
abbrev pub us_printable : List Printable
us_printable =
    row 2 49 33
    ∷ row 3 50 64
    ∷ row 4 51 35
    ∷ row 5 52 36
    ∷ row 6 53 37
    ∷ row 7 54 94
    ∷ row 8 55 38
    ∷ row 9 56 42
    ∷ row 10 57 40
    ∷ row 11 48 41
    ∷ row 12 45 95
    ∷ row 13 61 43
    ∷ row 16 113 81
    ∷ row 17 119 87
    ∷ row 18 101 69
    ∷ row 19 114 82
    ∷ row 20 116 84
    ∷ row 21 121 89
    ∷ row 22 117 85
    ∷ row 23 105 73
    ∷ row 24 111 79
    ∷ row 25 112 80
    ∷ row 26 91 123
    ∷ row 27 93 125
    ∷ row 30 97 65
    ∷ row 31 115 83
    ∷ row 32 100 68
    ∷ row 33 102 70
    ∷ row 34 103 71
    ∷ row 35 104 72
    ∷ row 36 106 74
    ∷ row 37 107 75
    ∷ row 38 108 76
    ∷ row 39 59 58
    ∷ row 40 39 34
    ∷ row 41 96 126
    ∷ row 43 92 124
    ∷ row 44 122 90
    ∷ row 45 120 88
    ∷ row 46 99 67
    ∷ row 47 118 86
    ∷ row 48 98 66
    ∷ row 49 110 78
    ∷ row 50 109 77
    ∷ row 51 44 60
    ∷ row 52 46 62
    ∷ row 53 47 63
    ∷ []
