-- ===== src/Framebuffer/Tests.antt =====
-- A window of two by two pixels in greyscale.
use ca.Base.{
  ℕ, ◌≡◌, refl, Bool, true, false, List, [], ◌∷◌, some, none, ok, Result, set, replicate, bind,
}
use ca.Base
use ca.Framebuffer.{Sdl, Framebuffer, initial, new_context, get_zone, contains, write_word}
use ca.Memory.Bytes.{store}
use ca.Framebuffer.Consistent.{IsConsistent}
use ca.Framebuffer.Reached.{constructed, wrote_word, Reached-IsConsistent}

abbrev sdl : Sdl
sdl = record {
  makes_window = λ resx resy. true;
  makes_texture = λ resx resy mode. true;
  allocates = λ memsize. true;
}

abbrev fresh : Framebuffer
fresh = initial 0x800 0x1000000

abbrev with_resx : Framebuffer
with_resx = record fresh { registers = record { enable = 0; mode = 0; resx = 2; resy = 0 } }

abbrev with_resy : Framebuffer
with_resy = record fresh { registers = record { enable = 0; mode = 0; resx = 2; resy = 2 } }

abbrev shown : Framebuffer
shown = record fresh {
  registers = record { enable = 1; mode = 0; resx = 2; resy = 2 };
  active_window = true;
  context =
      some
        (record { mem = replicate 4 0; memsize = 4; changed = true; mode = 0; resx = 2; resy = 2 });
}

resx_is_set : write_word sdl 0x808 2 fresh ≡ ok with_resx
unfolding write_word get_zone
resx_is_set = refl

resy_is_set : write_word sdl 0x80C 2 with_resx ≡ ok with_resy
unfolding write_word get_zone
resy_is_set = refl

window_opens : write_word sdl 0x800 1 with_resy ≡ ok shown
unfolding write_word get_zone new_context
window_opens = refl

-- The design names six modes; the table is read at any other.
unknown_mode : bind (write_word sdl 0x804 6 fresh) (write_word sdl 0x800 1) ≡ Base.Result.undefined
unfolding write_word get_zone new_context
unknown_mode = refl

-- Where the allocator fails, the window opens all the same, and a write to its memory is undefined.
no_memory :
    bind
      (write_word (record sdl { allocates = λ memsize. false }) 0x800 1 with_resy)
      (write_word sdl 0x1000000 7)
    ≡ Base.Result.undefined
unfolding write_word get_zone new_context store
no_memory = refl

-- The address behind the palette counts as contained.
contains_end : contains 0xC10 fresh ≡ ok true
unfolding contains get_zone
contains_end = refl

Reached-IsConsistent_example : IsConsistent sdl shown
Reached-IsConsistent_example = Reached-IsConsistent sdl 0x800 0x1000000 shown refl (
    wrote_word 0x800 1 shown
      (wrote_word 0x80C 2 with_resy (wrote_word 0x808 2 with_resx constructed resx_is_set)
        resy_is_set)
      window_opens)
