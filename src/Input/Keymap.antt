-- ===== src/Input/Keymap.antt =====
-- platform/linux/input.c, evdev_translate_keycode and evdev_translate_btns: their tables, as lists
-- of the kernel's codes with the codes of the protocol. `shift` is always 0 in the source.
use gtscreen.Prelude.{ℕ, List, [], ◌∷◌}
use gtscreen.Input.Kernel.{
  key_esc, key_1, key_2, key_3, key_4, key_5, key_6, key_7, key_8, key_9, key_0, key_minus,
  key_equal, key_backspace, key_tab, key_q, key_w, key_e, key_r, key_t, key_y, key_u, key_i, key_o,
  key_p, key_leftbrace, key_rightbrace, key_enter, key_leftctrl, key_a, key_s, key_d, key_f, key_g,
  key_h, key_j, key_k, key_l, key_semicolon, key_apostrophe, key_grave, key_leftshift,
  key_backslash, key_z, key_x, key_c, key_v, key_b, key_n, key_m, key_comma, key_dot, key_slash,
  key_rightshift, key_kpasterisk, key_leftalt, key_space, key_capslock, key_f1, key_f2, key_f3,
  key_f4, key_f5, key_f6, key_f7, key_f8, key_f9, key_f10, key_numlock, key_kp7, key_kp8, key_kp9,
  key_kpminus, key_kp4, key_kp5, key_kp6, key_kpplus, key_kp1, key_kp2, key_kp3, key_kp0, key_kpdot,
  key_f11, key_f12, key_kpenter, key_rightctrl, key_kpslash, key_rightalt, key_home, key_up,
  key_pageup, key_left, key_right, key_end, key_down, key_pagedown, key_insert, key_delete, key_f13,
  key_f14, key_f15, key_f16, key_f17, key_f18, key_f19, key_f20, key_f21, key_f22, key_f23, key_f24,
  btn_left, btn_right, btn_middle, btn_side, btn_extra, btn_forward, btn_back, btn_task,
}
use gtscreen.Input.Keycodes.{
  keycode_capslock, keycode_delete, keycode_down, keycode_end, keycode_f1, keycode_f10, keycode_f11,
  keycode_f12, keycode_f13, keycode_f14, keycode_f15, keycode_f16, keycode_f17, keycode_f18,
  keycode_f19, keycode_f2, keycode_f20, keycode_f21, keycode_f22, keycode_f23, keycode_f24,
  keycode_f3, keycode_f4, keycode_f5, keycode_f6, keycode_f7, keycode_f8, keycode_f9, keycode_home,
  keycode_insert, keycode_lalt, keycode_lctrl, keycode_left, keycode_lshift, keycode_np0,
  keycode_np1, keycode_np2, keycode_np3, keycode_np4, keycode_np5, keycode_np6, keycode_np7,
  keycode_np8, keycode_np9, keycode_npasterisk, keycode_npdot, keycode_npenter, keycode_npminus,
  keycode_npplus, keycode_npslash, keycode_numlock, keycode_pagedown, keycode_pageup, keycode_ralt,
  keycode_rctrl, keycode_right, keycode_rshift, keycode_up, keycode_lbtn, keycode_rbtn,
  keycode_abtn, keycode_bbtn, keycode_cbtn, keycode_dbtn, keycode_ebtn, keycode_fbtn,
}

unfoldable pub keymap : List (ℕ × ℕ)
keymap =
    (key_leftalt, keycode_lalt)
    ∷ (key_leftctrl, keycode_lctrl)
    ∷ (key_capslock, keycode_capslock)
    ∷ (key_leftshift, keycode_lshift)
    ∷ (key_rightshift, keycode_rshift)
    ∷ (key_rightctrl, keycode_rctrl)
    ∷ (key_rightalt, keycode_ralt)
    ∷ (key_up, keycode_up)
    ∷ (key_down, keycode_down)
    ∷ (key_left, keycode_left)
    ∷ (key_right, keycode_right)
    ∷ (key_pageup, keycode_pageup)
    ∷ (key_pagedown, keycode_pagedown)
    ∷ (key_home, keycode_home)
    ∷ (key_end, keycode_end)
    ∷ (key_insert, keycode_insert)
    ∷ (key_delete, keycode_delete)
    ∷ (key_numlock, keycode_numlock)
    ∷ (key_kp0, keycode_np0)
    ∷ (key_kp1, keycode_np1)
    ∷ (key_kp2, keycode_np2)
    ∷ (key_kp3, keycode_np3)
    ∷ (key_kp4, keycode_np4)
    ∷ (key_kp5, keycode_np5)
    ∷ (key_kp6, keycode_np6)
    ∷ (key_kp7, keycode_np7)
    ∷ (key_kp8, keycode_np8)
    ∷ (key_kp9, keycode_np9)
    ∷ (key_kpslash, keycode_npslash)
    ∷ (key_kpasterisk, keycode_npasterisk)
    ∷ (key_kpplus, keycode_npplus)
    ∷ (key_kpminus, keycode_npminus)
    ∷ (key_kpdot, keycode_npdot)
    ∷ (key_kpenter, keycode_npenter)
    ∷ (key_f1, keycode_f1)
    ∷ (key_f2, keycode_f2)
    ∷ (key_f3, keycode_f3)
    ∷ (key_f4, keycode_f4)
    ∷ (key_f5, keycode_f5)
    ∷ (key_f6, keycode_f6)
    ∷ (key_f7, keycode_f7)
    ∷ (key_f8, keycode_f8)
    ∷ (key_f9, keycode_f9)
    ∷ (key_f10, keycode_f10)
    ∷ (key_f11, keycode_f11)
    ∷ (key_f12, keycode_f12)
    ∷ (key_f13, keycode_f13)
    ∷ (key_f14, keycode_f14)
    ∷ (key_f15, keycode_f15)
    ∷ (key_f16, keycode_f16)
    ∷ (key_f17, keycode_f17)
    ∷ (key_f18, keycode_f18)
    ∷ (key_f19, keycode_f19)
    ∷ (key_f20, keycode_f20)
    ∷ (key_f21, keycode_f21)
    ∷ (key_f22, keycode_f22)
    ∷ (key_f23, keycode_f23)
    ∷ (key_f24, keycode_f24)
    ∷ (key_esc, 27)
    ∷ (key_0, b'0')
    ∷ (key_1, b'1')
    ∷ (key_2, b'2')
    ∷ (key_3, b'3')
    ∷ (key_4, b'4')
    ∷ (key_5, b'5')
    ∷ (key_6, b'6')
    ∷ (key_7, b'7')
    ∷ (key_8, b'8')
    ∷ (key_9, b'9')
    ∷ (key_minus, b'-')
    ∷ (key_equal, b'=')
    ∷ (key_backspace, 8)
    ∷ (key_tab, 9)
    ∷ (key_leftbrace, b'[')
    ∷ (key_rightbrace, b']')
    ∷ (key_enter, 10)
    ∷ (key_semicolon, b';')
    ∷ (key_apostrophe, 39)
    ∷ (key_grave, b'`')
    ∷ (key_backslash, 92)
    ∷ (key_comma, b',')
    ∷ (key_dot, b'.')
    ∷ (key_slash, b'/')
    ∷ (key_space, 32)
    ∷ (key_a, b'a')
    ∷ (key_b, b'b')
    ∷ (key_c, b'c')
    ∷ (key_d, b'd')
    ∷ (key_e, b'e')
    ∷ (key_f, b'f')
    ∷ (key_g, b'g')
    ∷ (key_h, b'h')
    ∷ (key_i, b'i')
    ∷ (key_j, b'j')
    ∷ (key_k, b'k')
    ∷ (key_l, b'l')
    ∷ (key_m, b'm')
    ∷ (key_n, b'n')
    ∷ (key_o, b'o')
    ∷ (key_p, b'p')
    ∷ (key_q, b'q')
    ∷ (key_r, b'r')
    ∷ (key_s, b's')
    ∷ (key_t, b't')
    ∷ (key_u, b'u')
    ∷ (key_v, b'v')
    ∷ (key_w, b'w')
    ∷ (key_x, b'x')
    ∷ (key_y, b'Y')
    ∷ (key_z, b'z')
    ∷ []

unfoldable pub buttonmap : List (ℕ × ℕ)
buttonmap =
    (btn_left, keycode_lbtn)
    ∷ (btn_right, keycode_rbtn)
    ∷ (btn_middle, keycode_abtn)
    ∷ (btn_back, keycode_bbtn)
    ∷ (btn_forward, keycode_cbtn)
    ∷ (btn_side, keycode_dbtn)
    ∷ (btn_extra, keycode_ebtn)
    ∷ (btn_task, keycode_fbtn)
    ∷ []
