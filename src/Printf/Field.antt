-- ===== src/Printf/Field.antt =====
-- What one conversion of kernel/lib/cstd/stdio/vfprintf.c prints.
use yaeos.Prelude.{ℕ, ◌^◌, ◌<◌, ◌≡◌, ap, ◌∙◌, arith}
use yaeos.Prelude.{Bool, not, ◌&&◌, List, [], ◌++◌, length, replicate, ◌==◌}
use yaeos.Prelude.{ℤ, Option, if◌then◌else◌, length-append}
use yaeos.Prelude.{ok, pos, check-ok, ltb}
use yaeos.Printf.Spec.{ConvSpec, width_empty, special}
use yaeos.Printf.Args.{Argument}
use yaeos.Printf.Convert.{Io, try_add, pad, print_of, prefix_of, int_max}
use yaeos.Printf.Print.{
  lead, finish, justify_right, justify_left, lead_without_zero, print_field, prefix_length,
}
use yaeos.Printf.Sink.{Takes, Prints}
use yaeos.Printf.Loops.{Converts}
use yaeos.Printf.Shown.{Shown, shown_lem}
use yaeos.Printf.Stages.{
  Adds, Adds-if, Adds-skip, Adds-try_add, Adds-pad, Adds-then, Adds-finish, lead_lem, sign_text,
  prefix_text,
}
use yaeos.Printf.Layout.{
  ZeroPadsLeft, field_layout, field_text, lead_text, lead_by_table, lead-eq, room, right_text,
  left_text, stages_layout, layout, length-layout, length-lead, fill, prefix_le,
}

abbrev skip :
    {S : Type 0} (debug : Bool) (f : S → List ℕ → ℤ × S) → ℕ → (ℕ → Io debug f) → Io debug f
skip debug f printed next = next printed

module _ {S : Type 0} (debug : Bool) (f : S → List ℕ → ℤ × S) (out : S → List ℕ)
    (t : Takes f out) where
  justify_right_lem :
      (s : ConvSpec) (arg : Argument) (prefix : Option (List ℕ)) (w : ℕ)
      → Adds debug f out (justify_right debug f s arg prefix w) (
          right_text
            (special s.width == width_empty)
            s.flags.minus
            s.flags.zero_pad
            (prefix_text prefix ++ sign_text s arg)
            w)
  unfolding justify_right
  justify_right_lem s arg prefix w =
      let leads = prefix_text prefix ++ sign_text s arg in
      let zeros =
        Adds-then debug f out t (lead debug f s arg prefix) (pad debug f b'0' w) leads
          (replicate w b'0') (lead_lem debug f out t s arg prefix)
          (Adds-pad debug f out t b'0' w) in
      Adds-if debug f out t (not s.flags.minus && not (special s.width == width_empty)) _
        (skip debug f) _ []
        (Adds-if debug f out t s.flags.zero_pad _ (pad debug f b' ' w) _ (replicate w b' ') zeros
          (Adds-pad debug f out t b' ' w))
        (Adds-skip debug f out t)

  lead_without_zero_lem :
      (s : ConvSpec) (arg : Argument) (prefix : Option (List ℕ))
      → Adds debug f out
          (lead_without_zero debug f s arg prefix)
          (if not s.flags.zero_pad then prefix_text prefix ++ sign_text s arg else [])
  unfolding lead_without_zero
  lead_without_zero_lem s arg prefix =
      Adds-if debug f out t (not s.flags.zero_pad) (lead debug f s arg prefix) (skip debug f) _ []
        (lead_lem debug f out t s arg prefix) (Adds-skip debug f out t)

  justify_left_lem :
      (s : ConvSpec) (w : ℕ)
      → Adds debug f out
          (justify_left debug f s w)
          (left_text (special s.width == width_empty) s.flags.minus w)
  unfolding justify_left
  justify_left_lem s w =
      Adds-if debug f out t (s.flags.minus && not (special s.width == width_empty))
        (pad debug f b' ' w) (skip debug f) (replicate w b' ') [] (Adds-pad debug f out t b' ' w)
        (Adds-skip debug f out t)

  -- `print_field` behind its assertions.
  abbrev stages_text : ConvSpec → Argument → List ℕ → ℕ → List ℕ
  stages_text s arg shows w =
      stages_layout (special s.width == width_empty) s.flags.minus s.flags.zero_pad
        (lead_by_table s arg) shows w

  stages_lem :
      (s : ConvSpec) (arg : Argument) (shows : List ℕ) (w : ℕ)
      → Converts debug f out s arg shows
      → length (stages_text s arg shows w) < 2 ^ 31
      → Prints out
          (justify_right debug f s arg (prefix_of s.spec s arg) w 0 λ p₁.
            lead_without_zero debug f s arg (prefix_of s.spec s arg) p₁ λ p₂.
              try_add debug f
                (print_of debug f s.spec s arg)
                p₂
                λ p₃. justify_left debug f s w p₃ (finish debug f))
          (length (stages_text s arg shows w))
          (stages_text s arg shows w)
  stages_lem s arg shows w c h =
      let prefix = prefix_of s.spec s arg in
      let leads = lead_by_table s arg in
      Adds-finish debug f out t _ (stages_text s arg shows w)
        (Adds-then debug f out t (justify_right debug f s arg prefix w) _ _ _
          (justify_right_lem s arg prefix w)
          (Adds-then debug f out t (lead_without_zero debug f s arg prefix) _ _ _
            (lead_without_zero_lem s arg prefix)
            (Adds-then debug f out t (try_add debug f (print_of debug f s.spec s arg)) _ shows _
              (Adds-try_add debug f out t (print_of debug f s.spec s arg) shows c.printed)
              (justify_left_lem s w))))
        h

  placed :
      (s : ConvSpec) (arg : Argument) (shows : List ℕ) (w : ℕ)
      → ZeroPadsLeft s
      → w ≡ room s arg shows
      → stages_text s arg shows w ≡ field_text s arg shows
  placed s arg shows w z e =
      layout (special s.width == width_empty) s.flags.minus s.flags.zero_pad (lead_by_table s arg)
        shows w z
      ∙ ap
          (λ leads.
            field_layout (special s.width == width_empty) s.flags.minus s.flags.zero_pad leads shows
              w)
          (lead-eq s arg)
      ∙ ap
          (field_layout (special s.width == width_empty) s.flags.minus s.flags.zero_pad
            (lead_text s arg) shows)
          e

  field_fits :
      (s : ConvSpec) (arg : Argument) (shows : List ℕ)
      → length shows < 2 ^ 30
      → s.width < 2 ^ 30
      → length (field_text s arg shows) < 2 ^ 31
  field_fits s arg shows h given =
      let few = prefix_le s.spec s arg in
      let sum =
        length-layout (special s.width == width_empty) s.flags.minus s.flags.zero_pad
          (lead_text s arg) shows (room s arg shows) in
      let leads = length-lead s arg in
      let both = length-append (lead_text s arg) shows in ground arith

  stages_field :
      (s : ConvSpec) (arg : Argument) (shows : List ℕ) (w : ℕ)
      → Converts debug f out s arg shows
      → stages_text s arg shows w ≡ field_text s arg shows
      → length (field_text s arg shows) < 2 ^ 31
      → Prints out
          (justify_right debug f s arg (prefix_of s.spec s arg) w 0 λ p₁.
            lead_without_zero debug f s arg (prefix_of s.spec s arg) p₁ λ p₂.
              try_add debug f
                (print_of debug f s.spec s arg)
                p₂
                λ p₃. justify_left debug f s w p₃ (finish debug f))
          (length (field_text s arg shows))
          (field_text s arg shows)
  stages_field s arg shows w c e h =
      let fits = rw (← e) at h in rw (← e) (stages_lem s arg shows w c fits)

  pub print_field_lem :
      (s : ConvSpec) (arg : Argument) (shows : List ℕ) (st : S)
      → Shown s arg shows
      → ZeroPadsLeft s
      → s.width < 2 ^ 30
      → length shows < 2 ^ 30
      → (st' : S) × (print_field debug f s arg st ≡ ok (pos (length (field_text s arg shows)), st'))
        × (out st' ≡ out st ++ field_text s arg shows)
  unfolding print_field
  print_field_lem s arg shows st is z w h =
      let c = shown_lem debug f out t s arg shows is in
      let room_for = field_fits s arg shows h w in
      let few = prefix_le s.spec s arg in
      let ok₁ = check-ok debug (ltb s.width int_max) (ground arith) in
      let ok₂ = check-ok debug (ltb (length shows) int_max) (ground arith) in
      let ok₃ =
        check-ok debug (ltb (prefix_length (prefix_of s.spec s arg)) int_max) (ground arith) in
      let same = fill s arg shows h w in
      rw (c.announced, ok₁, ok₂, ok₃)
        (stages_field s arg shows _ c (placed s arg shows _ z same) room_for st)
