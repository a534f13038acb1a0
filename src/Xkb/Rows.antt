-- ===== src/Xkb/Rows.antt =====
-- pywaylandauto/backends/xkb.py: `_US_ROWS`, the keycodes of a US keyboard. The two names of an
-- entry are the keysyms without and with Shift.
use py_wayland_auto.Base.{ℕ, String, List, [], ◌∷◌, ◌++◌}

abbrev pub Entry : Type 0
Entry = ℕ × String × String

abbrev digit_row : List Entry
digit_row =
    (2, "1", "!")
    ∷ (3, "2", "@")
    ∷ (4, "3", "#")
    ∷ (5, "4", "$")
    ∷ (6, "5", "%")
    ∷ (7, "6", "^")
    ∷ (8, "7", "&")
    ∷ (9, "8", "*")
    ∷ (10, "9", "(")
    ∷ (11, "0", ")")
    ∷ (12, "-", "_")
    ∷ (13, "=", "+")
    ∷ []

abbrev qwerty_row : List Entry
qwerty_row =
    (16, "q", "Q")
    ∷ (17, "w", "W")
    ∷ (18, "e", "E")
    ∷ (19, "r", "R")
    ∷ (20, "t", "T")
    ∷ (21, "y", "Y")
    ∷ (22, "u", "U")
    ∷ (23, "i", "I")
    ∷ (24, "o", "O")
    ∷ (25, "p", "P")
    ∷ (26, "[", "{")
    ∷ (27, "]", "}")
    ∷ (43, "\\", "|")
    ∷ []

abbrev home_row : List Entry
home_row =
    (30, "a", "A")
    ∷ (31, "s", "S")
    ∷ (32, "d", "D")
    ∷ (33, "f", "F")
    ∷ (34, "g", "G")
    ∷ (35, "h", "H")
    ∷ (36, "j", "J")
    ∷ (37, "k", "K")
    ∷ (38, "l", "L")
    ∷ (39, ";", ":")
    ∷ (40, "'", "\"")
    ∷ []

abbrev bottom_row : List Entry
bottom_row =
    (44, "z", "Z")
    ∷ (45, "x", "X")
    ∷ (46, "c", "C")
    ∷ (47, "v", "V")
    ∷ (48, "b", "B")
    ∷ (49, "n", "N")
    ∷ (50, "m", "M")
    ∷ (51, ",", "<")
    ∷ (52, ".", ">")
    ∷ (53, "/", "?")
    ∷ []

abbrev special_row : List Entry
special_row =
    (57, " ", " ")
    ∷ (28, "Return", "Return")
    ∷ (15, "Tab", "Tab")
    ∷ (1, "Escape", "Escape")
    ∷ (14, "BackSpace", "BackSpace")
    ∷ (111, "Delete", "Delete")
    ∷ (105, "Left", "Left")
    ∷ (106, "Right", "Right")
    ∷ (103, "Up", "Up")
    ∷ (108, "Down", "Down")
    ∷ (102, "Home", "Home")
    ∷ (107, "End", "End")
    ∷ (104, "Page_Up", "Page_Up")
    ∷ (109, "Page_Down", "Page_Down")
    ∷ (58, "Caps_Lock", "Caps_Lock")
    ∷ (42, "Shift_L", "Shift_L")
    ∷ (54, "Shift_R", "Shift_R")
    ∷ (29, "Control_L", "Control_L")
    ∷ (97, "Control_R", "Control_R")
    ∷ (56, "Alt_L", "Alt_L")
    ∷ (100, "Alt_R", "Alt_R")
    ∷ (125, "Super_L", "Super_L")
    ∷ (126, "Super_R", "Super_R")
    ∷ (59, "F1", "F1")
    ∷ (60, "F2", "F2")
    ∷ (61, "F3", "F3")
    ∷ (62, "F4", "F4")
    ∷ (63, "F5", "F5")
    ∷ (64, "F6", "F6")
    ∷ (65, "F7", "F7")
    ∷ (66, "F8", "F8")
    ∷ (67, "F9", "F9")
    ∷ (68, "F10", "F10")
    ∷ (87, "F11", "F11")
    ∷ (88, "F12", "F12")
    ∷ []

unfoldable pub us_rows : List Entry
us_rows = digit_row ++ qwerty_row ++ home_row ++ bottom_row ++ special_row
