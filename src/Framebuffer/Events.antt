-- ===== src/Framebuffer/Events.antt =====
-- The window of src/framebuffer.cc: keys, redrawing and the clock.
use ca.Base.{
  ℕ, zero, suc, ◌+◌, ◌-◌, ◌*◌, ◌/◌, Bool, true, false, not, ◌&&◌, ◌||◌, List, [], ◌∷◌, ◌++◌, Option,
  none, some, Result, ok, throw, bind, ◌==◌, ltb, leb, if◌then◌else◌, bit_or, ◌<<<◌, u32, u64,
  get_elem?,
}
use ca.Base
use ca.Framebuffer.{RenderContext, Framebuffer, close_window}
use ca.Memory.{loaded}

-- A key that goes up, or any other event.
pub data Event : Type 0 where
  quit_key up_key down_key other_event : Event

unfoldable pub handle : Event → Framebuffer → Framebuffer
handle quit_key f = if f.active_window then close_window f else f
handle up_key f = if ltb 10 f.update_freq then record f { update_freq = f.update_freq / 10 } else f
handle down_key f =
    if ltb f.update_freq 10000000 then record f { update_freq = f.update_freq * 10 } else f
handle other_event f = f

unfoldable pub handle_all : List Event → Framebuffer → Framebuffer
handle_all [] f = f
handle_all (e ∷ es) f = handle_all es (handle e f)

-- The colour of a byte in greyscale, and by the palette otherwise.
unfoldable pub pixel : List ℕ → ℕ → ℕ → Result ℕ
pixel colours mode mval =
    if mode == 0
    then ok (bit_or (bit_or (bit_or (mval <<< 24) (mval <<< 16)) (mval <<< 8)) 0xFF)
    else loaded (get_elem? colours mval)

-- A row from `x`, and the rows from `y`; the index is a `uint32_t`.
unfoldable pub row_from : List ℕ → RenderContext → ℕ → ℕ → ℕ → Result (List ℕ)
row_from colours c y zero x = ok []
row_from colours c y (suc remaining) x =
    bind (loaded (get_elem? c.mem (u32 (y * c.resx + x)))) λ mval.
      bind (pixel colours c.mode mval)
        λ p. bind (row_from colours c y remaining (x + 1)) λ ps. ok (p ∷ ps)

unfoldable pub rows_from : List ℕ → RenderContext → ℕ → ℕ → Result (List ℕ)
rows_from colours c zero y = ok []
rows_from colours c (suc remaining) y =
    bind (row_from colours c y c.resx 0)
      λ row. bind (rows_from colours c remaining (y + 1)) λ rows. ok (row ++ rows)

-- What the texture is given: the memory itself, or the null pointer, in the modes from 2 on.
unfoldable pub texture_of : List ℕ → RenderContext → Result (List ℕ)
texture_of colours c = if ltb 1 c.mode then ok c.mem else rows_from colours c c.resy 0

-- What is shown, if the screen is drawn, and the device afterwards.
abbrev pub Shown : Type 0
Shown = Option (List ℕ) × Framebuffer

unfoldable pub redraw_screen : Framebuffer → Option RenderContext → Result Shown
redraw_screen f none = Base.Result.undefined
redraw_screen f (some c) =
    bind (texture_of f.colours c)
      λ texture. ok (some texture, record f { context = some (record c { changed = false }) })

abbrev pub is_changed : Option RenderContext → Bool
is_changed none = false
is_changed (some c) = c.changed

abbrev pub draw : Bool → Framebuffer → Result Shown
draw redraw f =
    if not f.active_window
    then ok (none, f)
    else if is_changed f.context || redraw
    then redraw_screen f f.context
    else ok (none, f)

-- For the events that SDL has.
unfoldable pub process_events : Bool → List Event → Framebuffer → Result Shown
process_events redraw events f =
    if f.active_window then draw redraw (handle_all events f) else ok (none, f)

abbrev count_cycle : Shown → Shown
count_cycle s = (s.0, record (s.1) { cycles_since_update = u64 ((s.1).cycles_since_update + 1) })

abbrev restart_count : Shown → Shown
restart_count s = (s.0, record (s.1) { cycles_since_update = 0 })

unfoldable pub clock_pulse : List Event → Framebuffer → Result Shown
clock_pulse events f =
    if ltb f.update_freq f.cycles_since_update
    then (bind (process_events true events f) λ s. ok (count_cycle (restart_count s)))
    else ok (count_cycle (none, f))
