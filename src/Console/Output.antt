-- ===== src/Console/Output.antt =====
-- kernel/console.c: the calls, each of which draws the screen again.
use bumbel_bee.Base.{
  ℕ, ◌+◌, ◌-◌, Bool, Option, none, some, List, [], ◌∷◌, ltb, ◌==◌, if◌then◌else◌, u32,
}
use bumbel_bee.Data.{Kernel}
use bumbel_bee.Mouse.{MouseState}
use bumbel_bee.Format.{VaArgs, fmt_vprintf}
use bumbel_bee.Console.{Console, log_reset, log_char, max_viewport_offset}
use bumbel_bee.Console.Screen.{render_output}

unfoldable pub console_init : Console → Console
console_init s = log_reset (record s { row = 0; col = 0 })

-- An argument of type int: so many lines up (negative) or down.
pub data Delta : Type 0 where
  up down : ℕ → Delta

abbrev pub scrolled : Delta → Console → Console
scrolled (up amount) s =
    let moved = u32 (s.viewport_offset + amount) in
    let offset = if ltb (max_viewport_offset s) moved then max_viewport_offset s else moved in
    if amount == 0 then s else record s { viewport_offset = offset }
scrolled (down amount) s = record s {
  viewport_offset = if ltb s.viewport_offset amount then 0 else s.viewport_offset - amount;
}

module _ (k : Kernel) (mouse : MouseState) where
  unfoldable pub console_clear : Console → Console
  console_clear s = render_output k mouse (log_reset s)

  unfoldable pub console_putc : ℕ → Console → Console
  console_putc c s = render_output k mouse (log_char c s)

  unfoldable pub console_write : List ℕ → Console → Console
  unfolding console_putc
  console_write [] s = s
  console_write (c ∷ cs) s = console_write cs (console_putc c s)

  -- `none` where the format has no end, as in `fmt_vprintf`
  unfoldable pub console_printf {κ} :
      {V : Type κ} → VaArgs V → List ℕ → V → Console → Option Console
  unfolding console_putc fmt_vprintf
  console_printf args fmt ap s = elim (fmt_vprintf args console_putc s fmt ap) [
    | none ↦ none
    | some (s', left) ↦ some s'
  ]

  unfoldable pub console_set_gui : Bool → Console → Console
  console_set_gui enabled s =
      render_output k mouse (record s { gui_mode = enabled; viewport_offset = 0 })

  unfoldable pub console_scroll : Delta → Console → Console
  console_scroll delta s = render_output k mouse (scrolled delta s)

  unfoldable pub console_scroll_top : Console → Console
  console_scroll_top s =
      render_output k mouse (record s { viewport_offset = max_viewport_offset s })

  unfoldable pub console_scroll_bottom : Console → Console
  console_scroll_bottom s = render_output k mouse (record s { viewport_offset = 0 })
