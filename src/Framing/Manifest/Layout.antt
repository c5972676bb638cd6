-- ===== src/Framing/Manifest/Layout.antt =====
-- Where the parts of a manifest stand.
use fuck_chat_control.Base.{
  ℕ, ◌+◌, ◌≡◌, refl, ◌∙◌, List, [], ◌∷◌, ◌++◌, arith, length, length-append,
}
use fuck_chat_control.Protocol.Bytes.{
  uint32_be, append_assoc, append_nil, put-written, write-written,
}
use fuck_chat_control.Framing.Receiver.{FileManifest}
use fuck_chat_control.Framing.Manifest.{fill_manifest}

-- What stands before the fixed tail, and the tail.
abbrev pub front : FileManifest → List ℕ → List ℕ → List ℕ
front m name mime =
    (((uint32_be m.transfer_id ++ (length name ∷ [])) ++ name) ++ (length mime ∷ [])) ++ mime

abbrev pub tail : FileManifest → List ℕ
tail m = uint32_be m.size ++ (uint32_be m.chunk_count ++ m.content_hash)

pub length-front :
    (m : FileManifest) (name mime : List ℕ)
    → length (front m name mime) ≡ 6 + length name + length mime
length-front m name mime = omega (
  arith,
  length-append (((uint32_be m.transfer_id ++ (length name ∷ [])) ++ name) ++ (length mime ∷ []))
      mime,
  length-append ((uint32_be m.transfer_id ++ (length name ∷ [])) ++ name) (length mime ∷ []),
  length-append (uint32_be m.transfer_id ++ (length name ∷ [])) name,
)

pub fill_manifest-layout :
    (m : FileManifest) (name mime : List ℕ)
    → length m.content_hash ≡ 32
    → fill_manifest m name mime ≡ front m name mime ++ tail m
fill_manifest-layout m name mime h =
    put-written (d5 ++ c) m.content_hash (14 + length name + length mime) 0 32
      (write-written d5 m.chunk_count (10 + length name + length mime) 32 36
        (write-written d4 m.size (6 + length name + length mime) 36 40
          (put-written d3 mime (6 + length name) 40 (length mime + 40)
            (put-written d2 (length mime ∷ []) (5 + length name) (length mime + 40)
              (1 + (length mime + 40))
              (put-written d1 name 5 (1 + (length mime + 40))
                (length name + (1 + (length mime + 40)))
                (put-written (uint32_be m.transfer_id) (length name ∷ []) 4
                  (length name + (1 + (length mime + 40)))
                  (1 + (length name + (1 + (length mime + 40))))
                  (write-written [] m.transfer_id 0 (1 + (length name + (1 + (length mime + 40))))
                    (4 + 1 + length name + 1 + length mime + 4 + 4 + 32) refl refl (omega arith))
                  refl (omega arith))
                refl (omega arith))
              (omega (arith, length-append d1 name)) (omega arith))
            (omega (arith, length-append d1 name, length-append d2 (length mime ∷ [])))
            (omega arith))
          (length-front m name mime) refl)
        (omega (arith, length-front m name mime, length-append d4 (uint32_be m.size))) refl)
      (omega
        (arith, length-front m name mime, length-append d4 (uint32_be m.size), length-append d5 c))
      (omega (arith, h))
    ∙ append_nil ((d5 ++ c) ++ m.content_hash)
    ∙ append_assoc d5 c m.content_hash
    ∙ append_assoc d4 (uint32_be m.size) (c ++ m.content_hash)
  where
    d1 : List ℕ
    d1 = uint32_be m.transfer_id ++ (length name ∷ [])

    d2 : List ℕ
    d2 = d1 ++ name

    d3 : List ℕ
    d3 = d2 ++ (length mime ∷ [])

    d4 : List ℕ
    d4 = front m name mime

    d5 : List ℕ
    d5 = d4 ++ uint32_be m.size

    c : List ℕ
    c = uint32_be m.chunk_count
