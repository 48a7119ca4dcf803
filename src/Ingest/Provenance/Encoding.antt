-- ===== src/Ingest/Provenance/Encoding.antt =====
-- DSSE's pre-authentication encoding, `_pae` of packages/dist-ingest/src/dist_ingest/provenance.py,
-- read back: what is signed fixes the payload's type and the payload.
use dev_tools_distribution_p.Base.{
  suc, ◌≡◌, refl, sym, ap, ◌∙◌, [], ◌∷◌, ◌++◌, arith, nat_eq, length, drop, inl,
}
use dev_tools_distribution_p.Base.Text.{Str, Bytes, text, encode, decimal}
use dev_tools_distribution_p.Base.Text.Laws.{append_cancel}
use dev_tools_distribution_p.Base.Text.Decimal.{value, value-decimal, digits-no_char, first_cut}
use dev_tools_distribution_p.Ingest.Provenance.{spaced, pae}

cut_at_length : (s s' t t' : Bytes) → length s ≡ length s' → s ++ t ≡ s' ++ t' → (s ≡ s') × (t ≡ t')
cut_at_length [] [] t t' h e = (refl, e)
cut_at_length [] (d ∷ s') t t' h e = ground arith
cut_at_length (d ∷ s) [] t t' h e = ground arith
cut_at_length (d ∷ s) (d' ∷ s') t t' h e = ground (arith, cut_at_length s s' t t')

-- Two messages that a signature cannot tell apart have the same type, in UTF-8, and the same payload.
pub pae-injective :
    (t t' : Str) (p p' : Bytes) → pae t p ≡ pae t' p' → (encode t ≡ encode t') × (p ≡ p')
unfolding pae decimal
pae-injective t t' p p' h =
    let tail : Bytes → Bytes = λ x. spaced (decimal (length x)) x in
    let (n, r) =
      first_cut b' ' (decimal (length (encode t))) (decimal (length (encode t')))
        (spaced (encode t) (tail p)) (spaced (encode t') (tail p'))
        (digits-no_char b' ' (inl (omega arith)) (suc (length (encode t))) (length (encode t)))
        (digits-no_char b' ' (inl (omega arith)) (suc (length (encode t'))) (length (encode t')))
        (append_cancel (text "DSSEv1 ")
          (spaced (decimal (length (encode t))) (spaced (encode t) (tail p)))
          (spaced (decimal (length (encode t'))) (spaced (encode t') (tail p'))) h) in
    let len : length (encode t) ≡ length (encode t') =
      sym (value-decimal (length (encode t)))
      ∙ ap (value 0) n
      ∙ value-decimal (length (encode t')) in
    let (same, q) = cut_at_length (encode t) (encode t') (b' ' ∷ tail p) (b' ' ∷ tail p') len r in
    (
      same,
      (first_cut b' ' (decimal (length p)) (decimal (length p')) p p'
          (digits-no_char b' ' (inl (omega arith)) (suc (length p)) (length p))
          (digits-no_char b' ' (inl (omega arith)) (suc (length p')) (length p'))
          (ap (drop 1) q)).1,
    )
