-- ===== src/Framebuffer/Consistent.antt =====
-- Writes to the device of src/framebuffer.cc, and what they keep.
use ca.Base.{
  [], replicate, if◌then◌else◌, ℕ, zero, suc, ◌+◌, ◌/◌, ◌%◌, ◌<◌, ◌≡◌, refl, arith, Bool, true,
  false, not, ◌&&◌, List, Option, none, some, ◌==◌, ltb, length, length-set, set, get_elem?,
  IfGives, IfGives-bind, IfGives-Unit, if_elim, Option-cases, ==_cases, inl, inr, ◌∙◌,
}
use ca.Base.Slices.{length-replicate}
use ca.Framebuffer.{
  Sdl, calloc, stored_context, write_enable, set_register, mark_changed, write_palette,
  write_word_at, RenderContext, ControlInterface, Zone, invalid, control, palette, buffer,
  Framebuffer, new_context, get_zone, write_data, write_word, write_buffer, mem_mult, is_valid_zone,
}
use ca.Memory.{loaded}
use ca.Memory.Bytes.{store}

store-length :
    (n : ℕ) (bytes : List ℕ) (i v : ℕ)
    → (out : List ℕ) → store n bytes i v ≡ some out
    → length out ≡ length bytes
unfolding store
store-length zero bytes i v out e = ground arith
store-length (suc n) bytes i v out e = ground (
  arith,
  store-length n (set bytes i (v % 256)) (i + 1) (v / 256) out,
  length-set bytes i (v % 256),
)

length-if :
    (b : Bool) (n : ℕ) → length {A = ℕ} (if b then replicate n 0 else []) ≡ (if b then n else 0)
length-if true n = length-replicate n 0
length-if false n = refl

length-calloc : (sdl : Sdl) (n : ℕ) → length (calloc sdl n) ≡ (if sdl.allocates n then n else 0)
length-calloc sdl n = length-if (sdl.allocates n) n

module _ (sdl : Sdl) where
  -- The memory has its size where the allocator gave it, and is the null pointer otherwise.
  abbrev pub IsFilled : RenderContext → Type 0
  IsFilled c = length c.mem ≡ (if sdl.allocates c.memsize then c.memsize else 0)

  -- The window, the register that says so, and the window's memory belong together.
  abbrev pub HasWindow : Bool → ℕ → Option RenderContext → Type 0
  HasWindow true enable (some c) = (enable ≡ 1) × IsFilled c
  HasWindow true enable none = ⊥
  HasWindow false enable (some c) = ⊥
  HasWindow false enable none = enable ≡ 0

  pub record IsConsistent (f : Framebuffer) : Type 0 where
    pub window : HasWindow f.active_window f.registers.enable f.context
    pub colours : length f.colours ≡ 256
    pub aligned : f.control_base % 4 ≡ 0

  stored_context-IsFilled :
      (c : RenderContext) (o : Option (List ℕ))
      → ((out : List ℕ) → o ≡ some out → length out ≡ length c.mem)
      → IsFilled c
      → IfGives IsFilled (stored_context c o)
  stored_context-IsFilled c none h l = tt
  stored_context-IsFilled c (some out) h l = h out refl ∙ l

  pub HasWindow-filled :
      (a : Bool) (e : ℕ) (c c' : RenderContext)
      → HasWindow a e (some c)
      → IsFilled c'
      → HasWindow a e (some c')
  HasWindow-filled true e c c' h l = (h.0, l)
  HasWindow-filled false e c c' h l = h

  pub IsFilled-of_window :
      (a : Bool) (e : ℕ) (c : RenderContext) → HasWindow a e (some c) → IsFilled c
  IsFilled-of_window true e c h = h.1
  IsFilled-of_window false e c h = absurd h

  write_buffer-IsConsistent :
      (width offset value : ℕ) (f : Framebuffer)
      → IsConsistent f
      → IfGives IsConsistent (write_buffer width offset value f)
  write_buffer-IsConsistent width offset value f i = elim (Option-cases f.context) [
    | inl e ↦ rw e tt
    | inr (c, e) ↦
        let w : HasWindow f.active_window f.registers.enable (some c) = rw e at i.window in
        rw e (
          IfGives-bind IsFilled IsConsistent (stored_context c (store width c.mem offset value)) _
            (stored_context-IsFilled c (store width c.mem offset value)
              (store-length width c.mem offset value)
              (IsFilled-of_window f.active_window f.registers.enable c w))
            λ c' l. record {
              window = HasWindow-filled f.active_window f.registers.enable c c' w l;
              colours = i.colours;
              aligned = i.aligned;
            })
  ]

  new_context-IsFilled : (resx resy mode : ℕ) → IfGives IsFilled (new_context sdl resx resy mode)
  unfolding new_context
  new_context-IsFilled resx resy mode =
      if_elim (IfGives IsFilled) (sdl.makes_window resx resy) _ _
        (IfGives-bind (λ _. Unit) IsFilled (loaded (get_elem? mem_mult mode)) _ (IfGives-Unit _)
          λ mult _.
            if_elim (IfGives IsFilled) (sdl.makes_texture resx resy mode) _ _ (length-calloc sdl _)
              tt)
        tt

  write_enable-IsConsistent :
      (value : ℕ) (f : Framebuffer)
      → IsConsistent f
      → IfGives IsConsistent (write_enable sdl value f)
  write_enable-IsConsistent value f i =
      if_elim (IfGives IsConsistent) (f.active_window && value == 0) _ _
        (record { window = refl; colours = i.colours; aligned = i.aligned })
        (if_elim (IfGives IsConsistent) (not f.active_window && ltb 0 value) _ _
          (IfGives-bind IsFilled IsConsistent _ _
            (new_context-IsFilled f.registers.resx f.registers.resy f.registers.mode)
            λ c l. record { window = (refl, l); colours = i.colours; aligned = i.aligned })
          i)

  set_register-enable :
      (i value : ℕ) (c : ControlInterface)
      → 0 < i
      → IfGives (λ c'. c.enable ≡ c'.enable) (set_register i value c)
  set_register-enable i value c h = ground arith

  mark_changed-HasWindow :
      (a : Bool) (e : ℕ) (o : Option RenderContext)
      → HasWindow a e o
      → IfGives (HasWindow a e) (mark_changed a o)
  mark_changed-HasWindow false e none h = h
  mark_changed-HasWindow false e (some c) h = h
  mark_changed-HasWindow true e none h = tt
  mark_changed-HasWindow true e (some c) h = h

  write_palette-IsConsistent :
      (k value : ℕ) (f : Framebuffer)
      → IsConsistent f
      → IfGives IsConsistent (write_palette k value f)
  write_palette-IsConsistent k value f i =
      if_elim (IfGives IsConsistent) (ltb k 256) _ _
        (IfGives-bind (HasWindow f.active_window f.registers.enable) IsConsistent _ _
          (mark_changed-HasWindow f.active_window f.registers.enable f.context i.window)
          λ c w. record {
            window = w;
            colours = length-set f.colours k value ∙ i.colours;
            aligned = i.aligned;
          })
        tt

  -- The offset of a control register is a multiple of four.
  abbrev IsAligned : Zone × ℕ → Type 0
  IsAligned (control, offset) = offset % 4 ≡ 0
  IsAligned _ = Unit

  get_zone-IsAligned :
      (addr : ℕ) (f : Framebuffer) → f.control_base % 4 ≡ 0 → IfGives IsAligned (get_zone addr 4 f)
  unfolding get_zone
  get_zone-IsAligned addr f h = elim (Option-cases f.context) [
    | inl e ↦ rw e (ground arith)
    | inr (c, e) ↦ rw e (ground arith)
  ]

  write_word_at-IsConsistent :
      (value : ℕ) (f : Framebuffer) (z : Zone × ℕ)
      → IsConsistent f
      → IsAligned z
      → IfGives IsConsistent (write_word_at sdl value f z)
  write_word_at-IsConsistent value f (control, offset) i a = elim (==_cases offset 0) [
    | inl e ↦ rw e (write_enable-IsConsistent value f i)
    | inr e ↦ rw e (
        IfGives-bind (λ c. f.registers.enable ≡ c.enable) IsConsistent _ _
          (set_register-enable (offset / 4) value f.registers (ground arith))
          λ c same. record {
            window = rw same at i.window;
            colours = i.colours;
            aligned = i.aligned;
          })
  ]
  write_word_at-IsConsistent value f (palette, offset) i a =
      write_palette-IsConsistent (offset / 4) value f i
  write_word_at-IsConsistent value f (buffer, offset) i a =
      write_buffer-IsConsistent 4 offset value f i
  write_word_at-IsConsistent value f (invalid, offset) i a = tt

  pub write_word-IsConsistent :
      (addr value : ℕ) (f : Framebuffer)
      → IsConsistent f
      → IfGives IsConsistent (write_word sdl addr value f)
  unfolding write_word
  write_word-IsConsistent addr value f i =
      IfGives-bind IsAligned IsConsistent (get_zone addr 4 f) _
        (get_zone-IsAligned addr f i.aligned) λ z a. write_word_at-IsConsistent value f z i a

  pub write_data-IsConsistent :
      (width addr value : ℕ) (f : Framebuffer)
      → IsConsistent f
      → IfGives IsConsistent (write_data width addr value f)
  unfolding write_data
  write_data-IsConsistent width addr value f i =
      IfGives-bind (λ _. Unit) IsConsistent (get_zone addr width f) _ (IfGives-Unit _)
        λ z _.
          if_elim (IfGives IsConsistent) (is_valid_zone (z.0)) _ _
            (write_buffer-IsConsistent width (z.1) value f i) tt
