-- ===== src/Database/Key/RoundTrip.antt =====
-- The coding of names.
use enigma_core.Prelude.{ℕ, ◌≡◌, some, List}
use enigma_core.Database.{Hex}

-- What the code relies on in the coding: what is coded is decoded.
pub record HexLaws (h : Hex) : Type 0 where
  pub from-to : (b : List ℕ) → h.from_hex (h.to_hex b) ≡ some b
