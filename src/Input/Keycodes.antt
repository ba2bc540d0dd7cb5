-- ===== src/Input/Keycodes.antt =====
-- spr16.h: the key codes of the protocol. Codes below 256 are characters.
use gtscreen.Prelude.{ℕ}

abbrev pub keycode_escape : ℕ
keycode_escape = 27

abbrev pub keycode_lshift : ℕ
keycode_lshift = 256

abbrev pub keycode_rshift : ℕ
keycode_rshift = 257

abbrev pub keycode_lctrl : ℕ
keycode_lctrl = 258

abbrev pub keycode_rctrl : ℕ
keycode_rctrl = 259

abbrev pub keycode_lalt : ℕ
keycode_lalt = 260

abbrev pub keycode_ralt : ℕ
keycode_ralt = 261

abbrev pub keycode_up : ℕ
keycode_up = 262

abbrev pub keycode_capslock : ℕ
keycode_capslock = 263

abbrev pub keycode_down : ℕ
keycode_down = 264

abbrev pub keycode_left : ℕ
keycode_left = 265

abbrev pub keycode_right : ℕ
keycode_right = 266

abbrev pub keycode_pageup : ℕ
keycode_pageup = 267

abbrev pub keycode_pagedown : ℕ
keycode_pagedown = 268

abbrev pub keycode_home : ℕ
keycode_home = 269

abbrev pub keycode_end : ℕ
keycode_end = 270

abbrev pub keycode_insert : ℕ
keycode_insert = 271

abbrev pub keycode_delete : ℕ
keycode_delete = 272

abbrev pub keycode_numlock : ℕ
keycode_numlock = 273

abbrev pub keycode_np0 : ℕ
keycode_np0 = 274

abbrev pub keycode_np1 : ℕ
keycode_np1 = 275

abbrev pub keycode_np2 : ℕ
keycode_np2 = 276

abbrev pub keycode_np3 : ℕ
keycode_np3 = 277

abbrev pub keycode_np4 : ℕ
keycode_np4 = 278

abbrev pub keycode_np5 : ℕ
keycode_np5 = 279

abbrev pub keycode_np6 : ℕ
keycode_np6 = 280

abbrev pub keycode_np7 : ℕ
keycode_np7 = 281

abbrev pub keycode_np8 : ℕ
keycode_np8 = 282

abbrev pub keycode_np9 : ℕ
keycode_np9 = 283

abbrev pub keycode_npslash : ℕ
keycode_npslash = 284

abbrev pub keycode_npasterisk : ℕ
keycode_npasterisk = 285

abbrev pub keycode_npplus : ℕ
keycode_npplus = 286

abbrev pub keycode_npminus : ℕ
keycode_npminus = 287

abbrev pub keycode_npdot : ℕ
keycode_npdot = 288

abbrev pub keycode_npenter : ℕ
keycode_npenter = 289

abbrev pub keycode_f1 : ℕ
keycode_f1 = 290

abbrev pub keycode_f2 : ℕ
keycode_f2 = 291

abbrev pub keycode_f3 : ℕ
keycode_f3 = 292

abbrev pub keycode_f4 : ℕ
keycode_f4 = 293

abbrev pub keycode_f5 : ℕ
keycode_f5 = 294

abbrev pub keycode_f6 : ℕ
keycode_f6 = 295

abbrev pub keycode_f7 : ℕ
keycode_f7 = 296

abbrev pub keycode_f8 : ℕ
keycode_f8 = 297

abbrev pub keycode_f9 : ℕ
keycode_f9 = 298

abbrev pub keycode_f10 : ℕ
keycode_f10 = 299

abbrev pub keycode_f11 : ℕ
keycode_f11 = 300

abbrev pub keycode_f12 : ℕ
keycode_f12 = 301

abbrev pub keycode_f13 : ℕ
keycode_f13 = 302

abbrev pub keycode_f14 : ℕ
keycode_f14 = 303

abbrev pub keycode_f15 : ℕ
keycode_f15 = 304

abbrev pub keycode_f16 : ℕ
keycode_f16 = 305

abbrev pub keycode_f17 : ℕ
keycode_f17 = 306

abbrev pub keycode_f18 : ℕ
keycode_f18 = 307

abbrev pub keycode_f19 : ℕ
keycode_f19 = 308

abbrev pub keycode_f20 : ℕ
keycode_f20 = 309

abbrev pub keycode_f21 : ℕ
keycode_f21 = 310

abbrev pub keycode_f22 : ℕ
keycode_f22 = 311

abbrev pub keycode_f23 : ℕ
keycode_f23 = 312

abbrev pub keycode_f24 : ℕ
keycode_f24 = 313

abbrev pub keycode_abtn : ℕ
keycode_abtn = 314

abbrev pub keycode_bbtn : ℕ
keycode_bbtn = 315

abbrev pub keycode_cbtn : ℕ
keycode_cbtn = 316

abbrev pub keycode_dbtn : ℕ
keycode_dbtn = 317

abbrev pub keycode_ebtn : ℕ
keycode_ebtn = 318

abbrev pub keycode_fbtn : ℕ
keycode_fbtn = 319

abbrev pub keycode_lbtn : ℕ
keycode_lbtn = 320

abbrev pub keycode_rbtn : ℕ
keycode_rbtn = 321

abbrev pub keycode_sbtn : ℕ
keycode_sbtn = 322

abbrev pub keycode_contact : ℕ
keycode_contact = 323

abbrev pub keycode_count : ℕ
keycode_count = 324
