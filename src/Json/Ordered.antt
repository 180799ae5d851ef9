-- ===== src/Json/Ordered.antt =====
-- The fields of an object in key order.
use web_server_http.Common.{
  Bool, true, false, [], ◌∷◌, ◌≡◌, refl, ap, ◌∙◌, sym, ◌&&◌, Bytes, equal, equal_iff, arith,
}
use web_server_http.Common.Dict.{bytes_less, bytes_less_irrefl, bytes_less_asym}
use web_server_http.Json.Value.{JsonValue, Fields, end, field, set_field}

less-equal : (j k : Bytes) → bytes_less j k ≡ true → equal j k ≡ false
less-equal j k h = ground (arith, equal_iff j k, bytes_less_irrefl j, bytes_less_asym j k)

less_trans : (a b c : Bytes) → bytes_less a b ≡ true → bytes_less b c ≡ true → bytes_less a c ≡ true
unfolding bytes_less
less_trans [] [] c h l = l
less_trans [] (y ∷ b) [] h l = l
less_trans [] (y ∷ b) (z ∷ c) h l = refl
less_trans (x ∷ a) [] c h l = ground arith
less_trans (x ∷ a) (y ∷ b) [] h l = l
less_trans (x ∷ a) (y ∷ b) (z ∷ c) h l = ground (arith, h, l, less_trans a b c)

-- Of two keys that differ, one is the lesser.
less_total : (a b : Bytes) → equal a b ≡ false → bytes_less a b ≡ false → bytes_less b a ≡ true
unfolding bytes_less equal
less_total [] [] h l = ground arith
less_total [] (y ∷ b) h l = ground arith
less_total (x ∷ a) [] h l = refl
less_total (x ∷ a) (y ∷ b) h l = ground (arith, h, l, less_total a b)

module _ {N : Type 0} where
  -- Every key is above `k`; every key is below `k`.
  abbrev pub above : Bytes → Fields N → Bool
  above k end = true
  above k (field j w fs) = bytes_less k j && above k fs

  abbrev pub below : Bytes → Fields N → Bool
  below k end = true
  below k (field j w fs) = bytes_less j k && below k fs

  abbrev pub increasing : Fields N → Bool
  increasing end = true
  increasing (field k v fs) = above k fs && increasing fs

  abbrev pub append_fields : Fields N → Fields N → Fields N
  append_fields end gs = gs
  append_fields (field k v fs) gs = field k v (append_fields fs gs)

  -- The fields of a text, set one after the other.
  abbrev pub set_fields : Fields N → Fields N → Fields N
  set_fields fs end = fs
  set_fields fs (field k v gs) = set_fields (set_field k v fs) gs

  set_field-last :
      (k : Bytes) (v : JsonValue N) (fs : Fields N)
      → below k fs ≡ true
      → set_field k v fs ≡ append_fields fs (field k v end)
  unfolding set_field
  set_field-last k v end h = refl
  set_field-last k v (field j w fs) h =
      ground (arith, less-equal j k, bytes_less_asym j k, set_field-last k v fs)

  append_fields_assoc :
      (fs gs hs : Fields N)
      → append_fields (append_fields fs gs) hs ≡ append_fields fs (append_fields gs hs)
  append_fields_assoc end gs hs = refl
  append_fields_assoc (field k v fs) gs hs = ap (field k v) (append_fields_assoc fs gs hs)

  append_fields_end : (fs : Fields N) → append_fields fs end ≡ fs
  append_fields_end end = refl
  append_fields_end (field k v fs) = ap (field k v) (append_fields_end fs)

  above-append :
      (j k : Bytes) (v : JsonValue N) (fs gs : Fields N)
      → above j (append_fields fs (field k v gs)) ≡ true
      → bytes_less j k ≡ true
  above-append j k v end gs h = ground arith
  above-append j k v (field i w fs) gs h = ground (arith, above-append j k v fs gs)

  below-append :
      (k : Bytes) (v : JsonValue N) (fs gs : Fields N)
      → increasing (append_fields fs (field k v gs)) ≡ true
      → below k fs ≡ true
  below-append k v end gs h = refl
  below-append k v (field j w fs) gs h =
      ground (arith, above-append j k v fs gs, below-append k v fs gs)

  -- Fields in order are put behind those that are there, as they stand.
  pub set_fields-append :
      (fs gs : Fields N)
      → increasing (append_fields fs gs) ≡ true
      → set_fields fs gs ≡ append_fields fs gs
  set_fields-append fs end h = sym (append_fields_end fs)
  set_fields-append fs (field k v gs) h =
      let first : set_field k v fs ≡ append_fields fs (field k v end) =
        set_field-last k v fs (below-append k v fs gs h) in
      let again : append_fields (set_field k v fs) gs ≡ append_fields fs (field k v gs) =
        ap (λ es. append_fields es gs) first ∙ append_fields_assoc fs (field k v end) gs in
      set_fields-append (set_field k v fs) gs (ap increasing again ∙ h) ∙ again

  -- Setting a field keeps the keys in order.
  above-set_field :
      (j k : Bytes) (v : JsonValue N) (fs : Fields N)
      → above j fs ≡ true
      → bytes_less j k ≡ true
      → above j (set_field k v fs) ≡ true
  unfolding set_field
  above-set_field j k v end h l = ground (arith, l)
  above-set_field j k v (field i w fs) h l = ground (arith, h, l, above-set_field j k v fs)

  above_trans :
      (j k : Bytes) (fs : Fields N) → bytes_less j k ≡ true → above k fs ≡ true → above j fs ≡ true
  above_trans j k end h l = refl
  above_trans j k (field i w fs) h l = ground (arith, l, less_trans j k i h, above_trans j k fs h)

  pub set_field-increasing :
      (k : Bytes) (v : JsonValue N) (fs : Fields N)
      → increasing fs ≡ true
      → increasing (set_field k v fs) ≡ true
  unfolding set_field
  set_field-increasing k v end h = refl
  set_field-increasing k v (field j w fs) h = ground (
    arith,
    h,
    equal_iff j k,
    above_trans k j fs,
    less_total j k,
    bytes_less_asym j k,
    above-set_field j k v fs,
    set_field-increasing k v fs,
  )
