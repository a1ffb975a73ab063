-- ===== src/Framebuffer/Reached.antt =====
-- The states that the device of src/framebuffer.cc can reach.
use ca.Base.{
  ℕ, ◌%◌, ◌≡◌, refl, arith, Bool, true, false, not, ◌||◌, List, [], ◌∷◌, Option, none, some, ok,
  ltb, IfGives, IfGives-bind, IfGives-Unit, if_elim,
}
use ca.Framebuffer.{Sdl, RenderContext, Framebuffer, initial, write_data, write_word}
use ca.Framebuffer.Events.{
  Event, handle, handle_all, redraw_screen, is_changed, texture_of, process_events, clock_pulse,
  Shown,
}
use ca.Framebuffer.Consistent.{
  HasWindow, IsConsistent, HasWindow-filled, IsFilled-of_window, write_word-IsConsistent,
  write_data-IsConsistent,
}

module _ (sdl : Sdl) where
  handle-IsConsistent :
      (e : Event) (f : Framebuffer) → IsConsistent sdl f → IsConsistent sdl (handle e f)
  unfolding handle
  handle-IsConsistent Event.quit_key f c = ground arith
  handle-IsConsistent Event.up_key f c = ground arith
  handle-IsConsistent Event.down_key f c = ground arith
  handle-IsConsistent Event.other_event f c = c

  handle_all-IsConsistent :
      (es : List Event) (f : Framebuffer) → IsConsistent sdl f → IsConsistent sdl (handle_all es f)
  unfolding handle_all
  handle_all-IsConsistent [] f c = c
  handle_all-IsConsistent (e ∷ es) f c =
      handle_all-IsConsistent es (handle e f) (handle-IsConsistent e f c)

  -- The device after it was shown.
  abbrev ShownConsistent : Shown → Type 0
  ShownConsistent s = IsConsistent sdl (s.1)

  redraw_screen-IsConsistent :
      (f : Framebuffer) (o : Option RenderContext)
      → IsConsistent sdl f
      → HasWindow sdl f.active_window f.registers.enable o
      → IfGives ShownConsistent (redraw_screen f o)
  unfolding redraw_screen
  redraw_screen-IsConsistent f none i w = tt
  redraw_screen-IsConsistent f (some c) i w =
      IfGives-bind (λ _. Unit) ShownConsistent (texture_of f.colours c) _ (IfGives-Unit _)
        λ t _. record {
          window =
              HasWindow-filled sdl f.active_window f.registers.enable c
                (record c { changed = false }) w
                (IsFilled-of_window sdl f.active_window f.registers.enable c w);
          colours = i.colours;
          aligned = i.aligned;
        }

  process_events-IsConsistent :
      (redraw : Bool) (es : List Event) (f : Framebuffer)
      → IsConsistent sdl f
      → IfGives ShownConsistent (process_events redraw es f)
  unfolding process_events
  process_events-IsConsistent redraw es f i =
      let g : Framebuffer = handle_all es f in
      let j : IsConsistent sdl g = handle_all-IsConsistent es f i in
      if_elim (IfGives ShownConsistent) f.active_window _ _
        (if_elim (IfGives ShownConsistent) (not g.active_window) _ _ j (
          if_elim (IfGives ShownConsistent) (is_changed g.context || redraw) _ _
            (redraw_screen-IsConsistent g g.context j j.window) j))
        i

  clock_pulse-IsConsistent :
      (es : List Event) (f : Framebuffer)
      → IsConsistent sdl f
      → IfGives ShownConsistent (clock_pulse es f)
  unfolding clock_pulse
  clock_pulse-IsConsistent es f i =
      if_elim (IfGives ShownConsistent) (ltb f.update_freq f.cycles_since_update) _ _
        (IfGives-bind ShownConsistent ShownConsistent (process_events true es f) _
          (process_events-IsConsistent true es f i)
          λ s j. record { window = j.window; colours = j.colours; aligned = j.aligned })
        (record { window = i.window; colours = i.colours; aligned = i.aligned })

-- What the bus and the window do to the device: the state after a call that returns.
pub data Reached (sdl : Sdl) (control_base framebuffer_base : ℕ) : Framebuffer → Type 0 where
  constructed : Reached sdl control_base framebuffer_base (initial control_base framebuffer_base)
  wrote_word :
      {f : Framebuffer} (addr value : ℕ) (g : Framebuffer)
      → Reached sdl control_base framebuffer_base f
      → write_word sdl addr value f ≡ ok g
      → Reached sdl control_base framebuffer_base g
  wrote_data :
      {f : Framebuffer} (width addr value : ℕ) (g : Framebuffer)
      → Reached sdl control_base framebuffer_base f
      → write_data width addr value f ≡ ok g
      → Reached sdl control_base framebuffer_base g
  pulsed :
      {f : Framebuffer} (events : List Event) (s : Shown)
      → Reached sdl control_base framebuffer_base f
      → clock_pulse events f ≡ ok s
      → Reached sdl control_base framebuffer_base (s.1)

-- For a control base that is a multiple of four, and whatever SDL and the allocator give: after any
-- sequence of writes of any width and clock pulses with any events that return, from the device as it
-- is constructed, there is a render context exactly if the window is active and the enable register
-- is 1, else that register is 0; the context's memory has its size if the allocator gives that size,
-- and is the null pointer otherwise; and the palette has 256 colours.
pub Reached-IsConsistent :
    (sdl : Sdl) (control_base framebuffer_base : ℕ) (f : Framebuffer)
    → control_base % 4 ≡ 0
    → Reached sdl control_base framebuffer_base f
    → IsConsistent sdl f
Reached-IsConsistent sdl cb fb _ h constructed = record {
  window = refl;
  colours = refl;
  aligned = h;
}
Reached-IsConsistent sdl cb fb g h (wrote_word {f = f} addr value _ r e) =
    rw e at (write_word-IsConsistent sdl addr value f (Reached-IsConsistent sdl cb fb f h r))
Reached-IsConsistent sdl cb fb g h (wrote_data {f = f} width addr value _ r e) =
    rw e at (write_data-IsConsistent sdl width addr value f (Reached-IsConsistent sdl cb fb f h r))
Reached-IsConsistent sdl cb fb _ h (pulsed {f = f} events s r e) =
    rw e at (clock_pulse-IsConsistent sdl events f (Reached-IsConsistent sdl cb fb f h r))
