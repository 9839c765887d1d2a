-- ===== src/Host/Jobs/Manifests.antt =====
-- The manifests and the identifiers that src/msos_autobuilder/persistent_host.py lets through.
use msos_autobuilder.Prelude.{
  ◌≤◌, ◌≡◌, refl, ap, subst, [], ◌∷◌, Text, codes, ok, true, false, length, all, All, arith,
  >>=-eq-ok, raise_if-not-eq-ok, raise_if-not->>-eq-ok, ok_inj,
}
use msos_autobuilder.Text.{is_space, strip, starts_with, is_empty, is_id_char}
use msos_autobuilder.Json.{
  Json, null, boolean, integer, string, array, object, Items, no_items, item, Fields, get, elements,
  is_falsy, json_eq,
}
use msos_autobuilder.Host.Jobs.{
  Manifest, is_id, safe_id, is_alphanumeric, is_disabled, has_instruction, validate_lane,
  validate_lanes, require_lanes, validate_manifest,
}

-- A lane with an inline instruction.
pub record IsInline (lane : Json) : Type 0 where
  pub fields : Fields
  pub is_object : lane ≡ object fields
  pub no_prompt_file : is_falsy (get (codes "prompt_file") fields) ≡ true
  pub instruction : Text
  pub is_instruction : get (codes "instruction") fields ≡ string instruction
  pub not_blank : is_empty (strip is_space instruction) ≡ false

-- A manifest that does not publish and has lanes, all of them inline.
pub record IsRunnable (manifest : Manifest) : Type 0 where
  pub disabled : is_disabled manifest ≡ true
  pub lanes : Items
  pub has_lanes : get (codes "lanes") manifest ≡ array lanes
  pub not_empty : 1 ≤ length (elements lanes)
  pub inline : All IsInline (elements lanes)

instruction_text :
    (value : Json)
    → has_instruction value ≡ true
    → (s : Text) × (value ≡ string s) × (is_empty (strip is_space s) ≡ false)
instruction_text (string s) h = (s, refl, ground arith)
instruction_text null h = absurd (ground arith)
instruction_text (boolean b) h = absurd (ground arith)
instruction_text (integer n) h = absurd (ground arith)
instruction_text (array v) h = absurd (ground arith)
instruction_text (object v) h = absurd (ground arith)

validate_lane-IsInline : (lane : Json) {u : Unit {0}} → validate_lane lane ≡ ok u → IsInline lane
unfolding validate_lane
validate_lane-IsInline (object lane) h =
    let (no_file, rest) = raise_if-not->>-eq-ok (is_falsy (get (codes "prompt_file") lane)) _ _ h in
    let (s, is_string, not_blank) =
      instruction_text (get (codes "instruction") lane)
        (raise_if-not-eq-ok (has_instruction (get (codes "instruction") lane)) _ rest) in
    record {
      fields = lane;
      is_object = refl;
      no_prompt_file = no_file;
      instruction = s;
      is_instruction = is_string;
      not_blank = not_blank;
    }
validate_lane-IsInline null h = absurd cc
validate_lane-IsInline (boolean b) h = absurd cc
validate_lane-IsInline (integer n) h = absurd cc
validate_lane-IsInline (string s) h = absurd cc
validate_lane-IsInline (array v) h = absurd cc

validate_lanes-All :
    (lanes : Items) {u : Unit {0}} → validate_lanes lanes ≡ ok u → All IsInline (elements lanes)
unfolding validate_lanes
validate_lanes-All no_items h = tt
validate_lanes-All (item lane lanes) h =
    let (v, first, rest) = >>=-eq-ok _ _ h in
    (validate_lane-IsInline lane first, validate_lanes-All lanes rest)

require_lanes-All :
    (value : Json) {u : Unit {0}}
    → require_lanes value ≡ ok u
    → (lanes : Items) × (value ≡ array lanes)
      × (1 ≤ length (elements lanes))
      × All IsInline (elements lanes)
unfolding require_lanes
require_lanes-All (array (item lane lanes)) h =
    (item lane lanes, refl, omega arith, validate_lanes-All (item lane lanes) h)
require_lanes-All (array no_items) h = absurd cc
require_lanes-All null h = absurd cc
require_lanes-All (boolean b) h = absurd cc
require_lanes-All (integer n) h = absurd cc
require_lanes-All (string s) h = absurd cc
require_lanes-All (object v) h = absurd cc

pub validate_manifest-IsRunnable :
    (value : Json) (manifest : Manifest)
    → validate_manifest value ≡ ok manifest
    → (value ≡ object manifest) × IsRunnable manifest
unfolding validate_manifest
validate_manifest-IsRunnable (object raw) manifest h =
    let (version, rest) =
      raise_if-not->>-eq-ok (json_eq (get (codes "version") raw) (integer 1)) _ _ h in
    let (disabled, rest') = raise_if-not->>-eq-ok (is_disabled raw) _ _ rest in
    let (u, checked, same) =
      >>=-eq-ok (require_lanes (get (codes "lanes") raw)) (λ u. ok raw) rest' in
    let (lanes, has_lanes, not_empty, inline) =
      require_lanes-All (get (codes "lanes") raw) checked in
    (
      ap object (ok_inj _ _ _ refl same),
      subst IsRunnable (ok_inj _ _ _ refl same) (record {
        disabled = disabled;
        lanes = lanes;
        has_lanes = has_lanes;
        not_empty = not_empty;
        inline = inline;
      }),
    )
validate_manifest-IsRunnable null manifest h = absurd cc
validate_manifest-IsRunnable (boolean b) manifest h = absurd cc
validate_manifest-IsRunnable (integer n) manifest h = absurd cc
validate_manifest-IsRunnable (string s) manifest h = absurd cc
validate_manifest-IsRunnable (array v) manifest h = absurd cc

pub safe_id-is_id : (value id : Text) → safe_id value ≡ ok id → is_id id ≡ true
unfolding safe_id
safe_id-is_id value id h =
    let (sound, same) = raise_if-not->>-eq-ok (is_id (strip is_space value)) _ _ h in
    subst (λ s. is_id s ≡ true) (ok_inj _ _ _ refl same) sound

-- `job_id` starts with a letter or a digit, has only letters, digits, dots, dashes and underscores,
-- and at most 128 of them.
pub is_id_bounds :
    (id : Text)
    → is_id id ≡ true
    → (1 ≤ length id)
      × (length id ≤ 128)
      × (all is_id_char id ≡ true)
      × (starts_with (codes ".") id ≡ false)
unfolding is_id is_alphanumeric is_id_char all starts_with
is_id_bounds [] h = absurd (ground arith)
is_id_bounds (c ∷ s) h = (omega arith, ground arith, ground arith, ground arith)
