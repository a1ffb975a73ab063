-- ===== src/Framebuffer.antt =====
-- src/framebuffer.h and src/framebuffer.cc: a device that shows its memory in a window. SDL and the
-- allocator are arguments: whether SDL makes a window and a texture, the events it has, and whether
-- `calloc` gives memory of a size. The source does not check what `calloc` returns: the null pointer
-- is the empty list, whose bytes cannot be read or written either. The offset is a `uint32_t`, and
-- addresses are 64 bits wide, so both wrap.
pub mod Events
pub mod Consistent
pub mod Reached
mod Tests
use ca.Base.{
  ℕ, ◌+◌, ◌-◌, ◌*◌, ◌/◌, ◌%◌, Bool, true, false, not, ◌&&◌, ◌||◌, List, [], ◌∷◌, Option, none, some,
  Result, ok, throw, bind, Outcome, returns, throws, Action, illegal_access, runtime_error, ◌==◌,
  ltb, leb, if◌then◌else◌, u32, u64, get_elem?, set, replicate, and_then, lift,
}
use ca.Base
use ca.Memory.{loaded}
use ca.Memory.Bytes.{load, store}

-- `RenderContext`, without what belongs to SDL.
pub record RenderContext : Type 0 where
  pub mem : List ℕ
  pub memsize : ℕ
  pub changed : Bool
  pub mode : ℕ
  pub resx : ℕ
  pub resy : ℕ

pub record ControlInterface : Type 0 where
  pub enable : ℕ
  pub mode : ℕ
  pub resx : ℕ
  pub resy : ℕ

pub data Zone : Type 0 where
  invalid control palette buffer : Zone

pub record Framebuffer : Type 0 where
  pub control_base : ℕ
  pub framebuffer_base : ℕ
  pub active_window : Bool
  pub finished : Bool
  pub update_freq : ℕ
  pub cycles_since_update : ℕ
  pub registers : ControlInterface
  pub colours : List ℕ
  pub context : Option RenderContext

-- The constructor, where SDL starts.
abbrev pub initial : ℕ → ℕ → Framebuffer
initial control_base framebuffer_base = record {
  control_base = control_base;
  framebuffer_base = framebuffer_base;
  active_window = false;
  finished = false;
  update_freq = 1000000;
  cycles_since_update = 0;
  registers = record { enable = 0; mode = 0; resx = 0; resy = 0 };
  colours = replicate 256 0;
  context = none;
}

-- Bytes per pixel, for the six modes.
abbrev pub mem_mult : List ℕ
mem_mult = 1 ∷ 1 ∷ 1 ∷ 2 ∷ 3 ∷ 4 ∷ []

-- Whether SDL makes a window with its renderer, for a width and a height, and a texture, for a mode
-- besides; and whether `calloc` gives memory of a size.
pub record Sdl : Type 0 where
  pub makes_window : ℕ → ℕ → Bool
  pub makes_texture : ℕ → ℕ → ℕ → Bool
  pub allocates : ℕ → Bool

-- What `calloc` returns, where the empty list is the null pointer.
abbrev pub calloc : Sdl → ℕ → List ℕ
calloc sdl memsize = if sdl.allocates memsize then replicate memsize 0 else []

abbrev new_memory : Sdl → ℕ → ℕ → ℕ → ℕ → RenderContext
new_memory sdl resx resy mode memsize = record {
  mem = calloc sdl memsize;
  memsize = memsize;
  changed = true;
  mode = mode;
  resx = resx;
  resy = resy;
}

-- `new RenderContext`. The tables of the modes are read after the window is made, whatever the mode
-- is.
unfoldable pub new_context : Sdl → ℕ → ℕ → ℕ → Result RenderContext
new_context sdl resx resy mode =
    if sdl.makes_window resx resy
    then (bind (loaded (get_elem? mem_mult mode)) λ mult.
        if sdl.makes_texture resx resy mode
        then ok (new_memory sdl resx resy mode (u32 (u32 (resx * resy) * mult)))
        else throw (runtime_error "Error creating texture"))
    else throw (runtime_error "Error creating SDL window/renderer")

-- sizeof(ControlInterface) and sizeof(palette).
abbrev pub control_size : ℕ
control_size = 16

abbrev pub palette_size : ℕ
palette_size = 1024

-- An access in the control zone or the palette.
abbrev pub control_zone : ℕ → ℕ → Framebuffer → Result (Zone × ℕ)
control_zone addr size f =
    if (ltb 0 size && not (size == 4)) || (size == 4 && not (addr % 4 == 0))
    then throw (illegal_access "Control/palette only support aligned 4 byte access")
    else if ltb (addr - f.control_base) control_size
    then ok (control, addr - f.control_base)
    else ok (palette, u32 (addr - f.control_base - control_size))

-- `context->memsize`, which is read only where there is a window.
abbrev pub buffer_zone : ℕ → ℕ → Framebuffer → Option RenderContext → Result (Zone × ℕ)
buffer_zone addr size f none = Base.Result.undefined
buffer_zone addr size f (some c) =
    if leb f.framebuffer_base addr && leb (u64 (addr + size)) (u64 (f.framebuffer_base + c.memsize))
    then ok (buffer, u32 (addr - f.framebuffer_base))
    else ok (invalid, 0)

unfoldable pub get_zone : ℕ → ℕ → Framebuffer → Result (Zone × ℕ)
get_zone addr size f =
    if leb f.control_base addr
      && leb (u64 (addr + size)) (u64 (f.control_base + control_size + palette_size))
    then control_zone addr size f
    else if not f.active_window && size == 0
    then ok (invalid, 0)
    else if not f.active_window
    then throw (illegal_access "Framebuffer device only accessible with an active window")
    else if leb f.framebuffer_base addr
    then buffer_zone addr size f f.context
    else ok (invalid, 0)

abbrev is_valid_zone : Zone → Bool
is_valid_zone invalid = false
is_valid_zone _ = true

unfoldable pub contains : ℕ → Framebuffer → Result Bool
contains addr f = bind (get_zone addr 0 f) λ z. ok (is_valid_zone (z.0))

abbrev pub read_mem : ℕ → ℕ → Option RenderContext → Result ℕ
read_mem width offset none = Base.Result.undefined
read_mem width offset (some c) = loaded (load width c.mem offset)

abbrev pub stored_context : RenderContext → Option (List ℕ) → Result RenderContext
stored_context c none = Base.Result.undefined
stored_context c (some mem) = ok (record c { mem = mem; changed = true })

abbrev pub write_mem : ℕ → ℕ → ℕ → Option RenderContext → Result RenderContext
write_mem width offset value none = Base.Result.undefined
write_mem width offset value (some c) = stored_context c (store width c.mem offset value)

abbrev read_at : ℕ → Framebuffer → Zone × ℕ → Result ℕ
read_at width f z =
    if is_valid_zone (z.0)
    then read_mem width (z.1) f.context
    else throw (illegal_access "Illegal access on framebuffer")

-- readByte, readHalfWord and readDoubleWord, by their width.
unfoldable pub read_data : ℕ → ℕ → Framebuffer → Result ℕ
read_data width addr f = bind (get_zone addr width f) (read_at width f)

abbrev pub control_register : ℕ → ControlInterface → Result ℕ
control_register i c =
    if i == 0
    then ok c.enable
    else if i == 1
    then ok c.mode
    else if i == 2
    then ok c.resx
    else if i == 3
    then ok c.resy
    else Base.Result.undefined

abbrev read_word_at : Framebuffer → Zone × ℕ → Result ℕ
read_word_at f (control, offset) = control_register (offset / 4) f.registers
read_word_at f (palette, offset) = loaded (get_elem? f.colours (offset / 4))
read_word_at f (buffer, offset) = read_mem 4 offset f.context
read_word_at f (invalid, offset) = throw (illegal_access "Invalid word access on framebuffer")

unfoldable pub read_word : ℕ → Framebuffer → Result ℕ
read_word addr f = bind (get_zone addr 4 f) (read_word_at f)

abbrev pub with_context : Framebuffer → RenderContext → Framebuffer
with_context f c = record f { context = some c }

abbrev pub write_buffer : ℕ → ℕ → ℕ → Framebuffer → Result Framebuffer
write_buffer width offset value f =
    bind (write_mem width offset value f.context) λ c. ok (with_context f c)

abbrev pub write_at : ℕ → ℕ → Framebuffer → Zone × ℕ → Result Framebuffer
write_at width value f z =
    if is_valid_zone (z.0)
    then write_buffer width (z.1) value f
    else throw (illegal_access "Illegal access on framebuffer")

-- writeByte, writeHalfWord and writeDoubleWord, by their width.
unfoldable pub write_data : ℕ → ℕ → ℕ → Framebuffer → Result Framebuffer
write_data width addr value f = bind (get_zone addr width f) (write_at width value f)

-- The window is closed.
abbrev pub close_window : Framebuffer → Framebuffer
close_window f = record f {
  context = none;
  active_window = false;
  registers = record (f.registers) { enable = 0 };
}

abbrev pub open_window : Framebuffer → RenderContext → Framebuffer
open_window f c = record f {
  context = some c;
  active_window = true;
  registers = record (f.registers) { enable = 1 };
}

-- A write to the register at offset 0.
abbrev pub write_enable : Sdl → ℕ → Framebuffer → Result Framebuffer
write_enable sdl value f =
    if f.active_window && value == 0
    then ok (close_window f)
    else if not f.active_window && ltb 0 value
    then (bind (new_context sdl f.registers.resx f.registers.resy f.registers.mode)
        λ c. ok (open_window f c))
    else ok f

abbrev pub set_register : ℕ → ℕ → ControlInterface → Result ControlInterface
set_register i value c =
    if i == 0
    then ok (record c { enable = value })
    else if i == 1
    then ok (record c { mode = value })
    else if i == 2
    then ok (record c { resx = value })
    else if i == 3
    then ok (record c { resy = value })
    else Base.Result.undefined

abbrev pub mark_changed : Bool → Option RenderContext → Result (Option RenderContext)
mark_changed false c = ok c
mark_changed true none = Base.Result.undefined
mark_changed true (some c) = ok (some (record c { changed = true }))

abbrev pub write_palette : ℕ → ℕ → Framebuffer → Result Framebuffer
write_palette i value f =
    if ltb i 256
    then (bind (mark_changed f.active_window f.context)
        λ c. ok (record f { colours = set f.colours i value; context = c }))
    else Base.Result.undefined

abbrev pub write_word_at : Sdl → ℕ → Framebuffer → Zone × ℕ → Result Framebuffer
write_word_at sdl value f (control, offset) =
    if offset == 0
    then write_enable sdl value f
    else bind (set_register (offset / 4) value f.registers) λ c. ok (record f { registers = c })
write_word_at sdl value f (palette, offset) = write_palette (offset / 4) value f
write_word_at sdl value f (buffer, offset) = write_buffer 4 offset value f
write_word_at sdl value f (invalid, offset) =
    throw (illegal_access "Invalid Word access on framebuffer")

unfoldable pub write_word : Sdl → ℕ → ℕ → Framebuffer → Result Framebuffer
write_word sdl addr value f = bind (get_zone addr 4 f) (write_word_at sdl value f)
