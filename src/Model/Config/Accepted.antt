-- ===== src/Model/Config/Accepted.antt =====
-- What `parse_model_config` of src/model/model_config.cpp accepts.
use native.Mathlib.Nat.{div-le_self}
use market_sim.Prelude.{
  ℕ, ◌/◌, ◌%◌, ◌≤◌, ◌≡◌, not, ◌||◌, arith, ltb, ◌==◌, List, [], ◌∷◌, subst, length, both_branches,
  Option, some, none,
}
use market_sim.Core.Status.{
  Result, success, failure, Yields, Yields-bind, Yields-any, is_ok, fails, invalid_model,
}
use market_sim.Core.CheckedMath.{u32_max, u64_max}
use market_sim.Model.Text.{head_passes}
use market_sim.Model.Json.{JsonValue, null_value, boolean, number, string, array, object, find}
use market_sim.Model.Spec.{ModelSpec, validate, estimate_parameter_count}
use market_sim.Model.Spec.Count.{IsSound, parameter_total, estimate_parameter_count_lem}
use market_sim.Model.Spec.Footprint.{IsU32, validate-IsSound}
use market_sim.Model.Safetensors.{parse_header, from_chars, has_real}
use market_sim.Model.Config.{
  FloatReader, configured, narrow_u32, u32_of, required_u32, validated, spec_of, object_spec,
  parse_model_config, architecture_of, required_string, required_float, required_bool,
  model_type_key, layers_key, hidden_key, intermediate_key, query_heads_key, kv_heads_key,
  vocabulary_key, positions_key, epsilon_key, theta_key, tied_key,
}

configured-Yields {ℓ} :
    {A : Type ℓ} (P : A → Type 0) (r : Result A) → Yields P r → Yields P (configured r)
unfolding configured
configured-Yields P (success a) h = h
configured-Yields P (failure s) h = tt

narrow_u32-Yields : (o : Option (ℕ × List ℕ)) → Yields (λ n. n ≤ u32_max) (narrow_u32 o)
unfolding narrow_u32
narrow_u32-Yields none = tt
narrow_u32-Yields (some (n, [])) =
    both_branches (Yields (λ n. n ≤ u32_max)) (ltb u32_max n) _ (success n) (λ _. tt)
      (λ e. ground arith)
narrow_u32-Yields (some (n, _ ∷ _)) = tt

u32_of-Yields : (o : Option JsonValue) → Yields (λ n. n ≤ u32_max) (u32_of o)
unfolding u32_of
u32_of-Yields none = tt
u32_of-Yields (some null_value) = tt
u32_of-Yields (some (boolean b)) = tt
u32_of-Yields (some (number text)) =
    both_branches (Yields (λ n. n ≤ u32_max))
      (length text == 0 || head_passes (λ x. x == 45) text || has_real text) (fails invalid_model)
      (narrow_u32 (from_chars text)) (λ _. tt) (λ _. narrow_u32-Yields (from_chars text))
u32_of-Yields (some (string text)) = tt
u32_of-Yields (some (array es)) = tt
u32_of-Yields (some (object ms)) = tt

-- A configured number.
u32-Yields :
    (root : JsonValue) (key : List ℕ)
    → Yields (λ n. n ≤ u32_max) (configured (required_u32 root key))
unfolding required_u32
u32-Yields root key = configured-Yields (λ n. n ≤ u32_max) _ (u32_of-Yields (find root key))

module _ {D F : Type 0} (floats : FloatReader D F) where
  -- A specification that is accepted: its fields are sound, and its parameters count as the model's.
  abbrev pub IsAccepted : ModelSpec F → Type 0
  IsAccepted s =
      IsSound s
      × (parameter_total s ≤ u64_max)
      × (estimate_parameter_count s ≡ success (parameter_total s))

  validated-Yields : (s : ModelSpec F) → IsU32 s → Yields IsAccepted (validated floats s)
  unfolding validated
  validated-Yields s small =
      both_branches (Yields IsAccepted) (not (is_ok (validate floats.tests s))) _ (success s)
        (λ _. tt)
        λ e.
          let (sound, fits) = validate-IsSound floats.tests s small (ground arith) in
          (sound, fits, ground (arith, estimate_parameter_count_lem s sound, fits))

  spec_of-Yields : (root : JsonValue) → Yields IsAccepted (spec_of floats root)
  unfolding spec_of
  spec_of-Yields root =
      let Q = IsAccepted in
      Yields-bind (λ _. Unit) Q (configured (required_string root model_type_key)) _ (Yields-any _)
        λ model_type _.
          Yields-bind (λ _. Unit) Q (architecture_of root model_type) _ (Yields-any _)
            λ (architecture, bias) _.
              Yields-bind (λ n. n ≤ u32_max) Q (configured (required_u32 root layers_key)) _
                (u32-Yields root layers_key)
                λ layers layers_small.
                  Yields-bind (λ n. n ≤ u32_max) Q (configured (required_u32 root hidden_key)) _
                    (u32-Yields root hidden_key)
                    λ hidden hidden_small.
                      Yields-bind (λ n. n ≤ u32_max) Q
                        (configured (required_u32 root intermediate_key)) _
                        (u32-Yields root intermediate_key)
                        λ intermediate intermediate_small.
                          Yields-bind (λ n. n ≤ u32_max) Q
                            (configured (required_u32 root query_heads_key)) _
                            (u32-Yields root query_heads_key)
                            λ query_heads query_heads_small.
                              Yields-bind (λ n. n ≤ u32_max) Q
                                (configured (required_u32 root kv_heads_key)) _
                                (u32-Yields root kv_heads_key)
                                λ kv_heads kv_heads_small.
                                  Yields-bind (λ n. n ≤ u32_max) Q
                                    (configured (required_u32 root vocabulary_key)) _
                                    (u32-Yields root vocabulary_key)
                                    λ vocabulary vocabulary_small.
                                      Yields-bind (λ n. n ≤ u32_max) Q
                                        (configured (required_u32 root positions_key)) _
                                        (u32-Yields root positions_key)
                                        λ positions positions_small.
                                          Yields-bind (λ _. Unit) Q
                                            (configured (required_float floats root epsilon_key)) _
                                            (Yields-any _)
                                            λ epsilon _.
                                              Yields-bind (λ _. Unit) Q
                                                (configured (required_float floats root theta_key))
                                                _ (Yields-any _)
                                                λ theta _.
                                                  Yields-bind (λ _. Unit) Q
                                                    (configured (required_bool root tied_key)) _
                                                    (Yields-any _)
                                                    λ tied _.
                                                      let s : ModelSpec F = record {
                                                        architecture = architecture;
                                                        layers = layers;
                                                        hidden_size = hidden;
                                                        intermediate_size = intermediate;
                                                        query_heads = query_heads;
                                                        kv_heads = kv_heads;
                                                        head_dim = hidden / query_heads;
                                                        vocabulary_size = vocabulary;
                                                        max_positions = positions;
                                                        rms_norm_epsilon = epsilon;
                                                        rope_theta = theta;
                                                        qkv_bias = bias;
                                                        tied_embeddings = tied;
                                                      } in
                                                      both_branches (Yields Q)
                                                        (query_heads == 0
                                                          || not (hidden % query_heads == 0))
                                                        (fails invalid_model) (validated floats s)
                                                        (λ _. tt)
                                                        λ _. validated-Yields s (
                                                          query_heads_small,
                                                          kv_heads_small,
                                                          omega (
                                                            arith,
                                                            hidden_small,
                                                            div-le_self hidden query_heads,
                                                          ),
                                                        )

  object_spec-Yields : (v : JsonValue) → Yields IsAccepted (object_spec floats v)
  unfolding object_spec
  object_spec-Yields null_value = tt
  object_spec-Yields (boolean b) = tt
  object_spec-Yields (number text) = tt
  object_spec-Yields (string text) = tt
  object_spec-Yields (array es) = tt
  object_spec-Yields (object ms) = spec_of-Yields (object ms)

  -- A configuration that is accepted has heads that divide its width and share out its groups, and its
  -- parameter count is exact.
  pub parse_model_config-IsAccepted :
      (json_text : List ℕ) (s : ModelSpec F)
      → parse_model_config floats json_text ≡ success s
      → IsAccepted s
  unfolding parse_model_config
  parse_model_config-IsAccepted json_text s h =
      subst (λ (r : Result (ModelSpec F)). Yields IsAccepted r) h
        (Yields-bind (λ _. Unit) IsAccepted (parse_header json_text) (object_spec floats)
          (Yields-any (parse_header json_text)) (λ v _. object_spec-Yields v))
