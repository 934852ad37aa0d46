-- ===== src/Grinder/Load/Early.antt =====
-- What `load` of mig/analyser/grinder.py does where a receiving time is smaller than the last one.
use dnstools.Chart.{Text}
use dnstools.Prelude.{
  get_last?, Error, Result, ok, err, ◌≡◌, refl, ◌∙◌, false, some, List, [], ◌∷◌, ◌++◌,
}
use dnstools.Prelude.Int.{◌<ℤ◌, lt→ltb_ℤ, ℤ}
use dnstools.Grinder.Load.{
  Processor, Loaded, find_section, enumerate_receives, later_than, next_receive, is_zero,
  receives_line, process, process_lines, load,
}
use dnstools.Strings.{strip, lower, int_of}

later_than_last :
    (xs : List ℤ) (t last : ℤ) → get_last? xs ≡ some last → t <ℤ last → later_than xs t ≡ some last
later_than_last xs t last h l = rw (h, later_than) (rw (lt→ltb_ℤ t last l) refl)

module _ {ℓ} {J : Type ℓ} where
  -- The lists from which `load` starts.
  abbrev pub nothing_loaded : Loaded J
  nothing_loaded = record {
    sends = [];
    receives = [];
    pairs = [];
    fits_sends = [];
    fits_receives = [];
  }

  process-early :
      (loads : Text → Result J) (line : Text) (t last : ℤ) (s : Loaded J)
      → int_of line ≡ some t
      → is_zero t ≡ false
      → later_than s.receives t ≡ some last
      → process loads enumerate_receives line s ≡ err Error.type_error
  unfolding process receives_line
  process-early loads line t last s h z l = rw (h, receives_line) (rw z (rw (l, next_receive) refl))

  -- Reading lines goes from one state of `processor` and of the lists to another.
  abbrev pub Reads :
      (Text → Result J) → Processor → Loaded J → List Text → Processor → Loaded J → Type ℓ
  Reads loads p s [] p' s' = (p ≡ p') × (s ≡ s')
  Reads loads p s (line ∷ lines) p' s' =
      (q : Processor) × (u : Loaded J) × (process loads p (lower (strip line)) s ≡ ok (q, u))
      × Reads loads q u lines p' s'

  process_lines-Reads :
      (loads : Text → Result J) (p : Processor) (s : Loaded J) (lines more : List Text)
      (p' : Processor) (s' : Loaded J)
      → Reads loads p s lines p' s'
      → process_lines loads p (lines ++ more) s ≡ process_lines loads p' more s'
  unfolding process_lines
  process_lines-Reads loads p s [] more p' s' (e, e') = rw (e, e') refl
  process_lines-Reads loads p s (line ∷ lines) more p' s' (q, u, e, r) =
      rw e (process_lines-Reads loads q u lines more p' s' r)

  process_lines_early :
      (loads : Text → Result J) (line : Text) (more : List Text) (t last : ℤ) (s : Loaded J)
      → int_of (lower (strip line)) ≡ some t
      → is_zero t ≡ false
      → later_than s.receives t ≡ some last
      → process_lines loads enumerate_receives (line ∷ more) s ≡ err Error.type_error
  unfolding process_lines
  process_lines_early loads line more t last s h z l =
      rw (process-early loads (lower (strip line)) t last s h z l) refl

  -- Whatever a file begins with, and whatever follows: where `load` has read the lines before and is
  -- in a section of receiving times, a line with a time other than 0 that is smaller than the last
  -- receiving time makes it raise the `TypeError` of its own message, and not the exception with the
  -- message.
  pub load_received_earlier :
      (loads : Text → Result J) (before more : List Text) (line : Text) (s : Loaded J) (t last : ℤ)
      → Reads loads find_section nothing_loaded before enumerate_receives s
      → get_last? s.receives ≡ some last
      → int_of (lower (strip line)) ≡ some t
      → is_zero t ≡ false
      → t <ℤ last
      → load loads (before ++ (line ∷ more)) ≡ err Error.type_error
  unfolding load
  load_received_earlier loads before more line s t last r g h zt l =
      process_lines-Reads loads find_section nothing_loaded before (line ∷ more) enumerate_receives
        s r
      ∙ process_lines_early loads line more t last s h zt (later_than_last s.receives t last g l)
