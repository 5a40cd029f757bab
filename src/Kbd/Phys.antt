-- ===== src/Kbd/Phys.antt =====
-- enum phys_key of picocalc_kbd.c: the physical keys, as the numbers that the tables are indexed by.
use picocalc_ubuntu_kernel.Prelude.{ℕ}

abbrev pub pk_none : ℕ
pk_none = 0

abbrev pub pk_a : ℕ
pk_a = 1

abbrev pub pk_b : ℕ
pk_b = 2

abbrev pub pk_c : ℕ
pk_c = 3

abbrev pub pk_d : ℕ
pk_d = 4

abbrev pub pk_e : ℕ
pk_e = 5

abbrev pub pk_f : ℕ
pk_f = 6

abbrev pub pk_g : ℕ
pk_g = 7

abbrev pub pk_h : ℕ
pk_h = 8

abbrev pub pk_i : ℕ
pk_i = 9

abbrev pub pk_j : ℕ
pk_j = 10

abbrev pub pk_k : ℕ
pk_k = 11

abbrev pub pk_l : ℕ
pk_l = 12

abbrev pub pk_m : ℕ
pk_m = 13

abbrev pub pk_n : ℕ
pk_n = 14

abbrev pub pk_o : ℕ
pk_o = 15

abbrev pub pk_p : ℕ
pk_p = 16

abbrev pub pk_q : ℕ
pk_q = 17

abbrev pub pk_r : ℕ
pk_r = 18

abbrev pub pk_s : ℕ
pk_s = 19

abbrev pub pk_t : ℕ
pk_t = 20

abbrev pub pk_u : ℕ
pk_u = 21

abbrev pub pk_v : ℕ
pk_v = 22

abbrev pub pk_w : ℕ
pk_w = 23

abbrev pub pk_x : ℕ
pk_x = 24

abbrev pub pk_y : ℕ
pk_y = 25

abbrev pub pk_z : ℕ
pk_z = 26

abbrev pub pk_0 : ℕ
pk_0 = 27

abbrev pub pk_1 : ℕ
pk_1 = 28

abbrev pub pk_2 : ℕ
pk_2 = 29

abbrev pub pk_3 : ℕ
pk_3 = 30

abbrev pub pk_4 : ℕ
pk_4 = 31

abbrev pub pk_5 : ℕ
pk_5 = 32

abbrev pub pk_6 : ℕ
pk_6 = 33

abbrev pub pk_7 : ℕ
pk_7 = 34

abbrev pub pk_8 : ℕ
pk_8 = 35

abbrev pub pk_9 : ℕ
pk_9 = 36

abbrev pub pk_space : ℕ
pk_space = 37

abbrev pub pk_enter : ℕ
pk_enter = 38

abbrev pub pk_tab : ℕ
pk_tab = 39

abbrev pub pk_esc : ℕ
pk_esc = 40

abbrev pub pk_backspace : ℕ
pk_backspace = 41

abbrev pub pk_dot : ℕ
pk_dot = 42

abbrev pub pk_comma : ℕ
pk_comma = 43

abbrev pub pk_semicolon : ℕ
pk_semicolon = 44

abbrev pub pk_apostrophe : ℕ
pk_apostrophe = 45

abbrev pub pk_minus : ℕ
pk_minus = 46

abbrev pub pk_equal : ℕ
pk_equal = 47

abbrev pub pk_slash : ℕ
pk_slash = 48

abbrev pub pk_backslash : ℕ
pk_backslash = 49

abbrev pub pk_lbracket : ℕ
pk_lbracket = 50

abbrev pub pk_rbracket : ℕ
pk_rbracket = 51

abbrev pub pk_grave : ℕ
pk_grave = 52

abbrev pub pk_f1 : ℕ
pk_f1 = 53

abbrev pub pk_f2 : ℕ
pk_f2 = 54

abbrev pub pk_f3 : ℕ
pk_f3 = 55

abbrev pub pk_f4 : ℕ
pk_f4 = 56

abbrev pub pk_f5 : ℕ
pk_f5 = 57

abbrev pub pk_f6 : ℕ
pk_f6 = 58

abbrev pub pk_f7 : ℕ
pk_f7 = 59

abbrev pub pk_f8 : ℕ
pk_f8 = 60

abbrev pub pk_f9 : ℕ
pk_f9 = 61

abbrev pub pk_f10 : ℕ
pk_f10 = 62

abbrev pub pk_up : ℕ
pk_up = 63

abbrev pub pk_down : ℕ
pk_down = 64

abbrev pub pk_left : ℕ
pk_left = 65

abbrev pub pk_right : ℕ
pk_right = 66

abbrev pub pk_home : ℕ
pk_home = 67

abbrev pub pk_end : ℕ
pk_end = 68

abbrev pub pk_insert : ℕ
pk_insert = 69

abbrev pub pk_delete : ℕ
pk_delete = 70

abbrev pub pk_pageup : ℕ
pk_pageup = 71

abbrev pub pk_pagedown : ℕ
pk_pagedown = 72

abbrev pub pk_pause : ℕ
pk_pause = 73

abbrev pub pk_capslock : ℕ
pk_capslock = 74

abbrev pub pk_lshift : ℕ
pk_lshift = 75

abbrev pub pk_rshift : ℕ
pk_rshift = 76

abbrev pub pk_lalt : ℕ
pk_lalt = 77

abbrev pub pk_lctrl : ℕ
pk_lctrl = 78

abbrev pub pk_power : ℕ
pk_power = 79

abbrev pub pk_max : ℕ
pk_max = 80
