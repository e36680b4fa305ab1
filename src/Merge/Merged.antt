-- ===== src/Merge/Merged.antt =====
-- Practice - 2023: list.txt from the start of the three programs.
use csf303_computer_networks.Prelude.{
  ℕ, ◌≡◌, refl, ap, sym, subst, ◌∙◌, Bool, true, false, some, List, [], ◌∷◌, ◌++◌, append_assoc,
  map, ok,
}
use csf303_computer_networks.StopAndWait.Safety.{IsSafe-prefix}
use csf303_computer_networks.Merge.{Packet, Server, main}
use csf303_computer_networks.Merge.Client.{Client}
use csf303_computer_networks.Merge.Client
use csf303_computer_networks.Merge.System.{System, Reach, every_other, number, view}
use csf303_computer_networks.Merge.Delivery.{
  client_begun, server_begun, client_begun-eq, server_begun-eq, at_start, start-Inv,
}
use csf303_computer_networks.Merge.Fields.{Part, bytes_of, IsFile}
use csf303_computer_networks.Merge.Reads.{text_of, field_of, Reads}
use csf303_computer_networks.Merge.Output.{join, Writes, reach-Writes, map-every_other}

begun-Reads :
    (parts : List Part) (raw : Packet)
    → IsFile parts
    → Reads parts (client_begun (bytes_of parts) raw)
begun-Reads parts raw h = record {
  left = parts;
  input = refl;
  file = h;
  texts = refl;
  all_text = tt;
}

begun-Writes :
    (parts₁ parts₂ : List Part) (raw₁ raw₂ raw : Packet)
    → IsFile parts₁
    → IsFile parts₂
    → Writes parts₁ parts₂ (
        at_start
          (client_begun (bytes_of parts₁) raw₁)
          (client_begun (bytes_of parts₂) raw₂)
          (server_begun raw))
unfolding join
begun-Writes parts₁ parts₂ raw₁ raw₂ raw h₁ h₂ = record {
  inv = start-Inv (bytes_of parts₁) (bytes_of parts₂) raw₁ raw₂ raw;
  one = begun-Reads parts₁ raw₁ h₁;
  two = begun-Reads parts₂ raw₂ h₂;
  file = refl;
}

-- What a client has had taken of it is a first part of its fields.
taken-fields :
    (keep : Bool) (taken sent rest : List Packet) (parts left : List Part)
    → every_other keep taken ++ rest ≡ sent
    → map text_of sent ++ map field_of left ≡ map field_of parts
    → every_other keep (map text_of taken) ++ (map text_of rest ++ map field_of left)
      ≡ map field_of parts
taken-fields keep taken sent rest parts left e texts =
    ap (λ l. l ++ (map text_of rest ++ map field_of left))
      (sym (map-every_other text_of keep taken))
    ∙ sym
        (append_assoc (map text_of (every_other keep taken)) (map text_of rest) (map field_of left))
    ∙ ap (λ l. l ++ map field_of left)
        (sym (map-append text_of (every_other keep taken) rest) ∙ ap (map text_of) e)
    ∙ texts
  where
    map-append :
        {A B : Type 0} (f : A → B) (xs ys : List A) → map f (xs ++ ys) ≡ map f xs ++ map f ys
    map-append f [] ys = refl
    map-append f (x ∷ xs) ys = ap (λ l. f x ∷ l) (map-append f xs ys)

-- The 2023 server with two clients of client-2.c, from the start of the three programs, which open
-- their files, over channels that lose packets but keep their order. The files of the clients are
-- fields of up to 255 characters, none of them empty, with separators between any two. Then
-- list.txt holds texts with a comma between any two: by turns the first fields of the one file and
-- those of the other, in order, with none lost and none repeated.
pub file-merged :
    (ok₁ ok₂ socket_ok socket2_ok bind_ok bind2_ok : Bool) (parts₁ parts₂ : List Part)
    (raw₁ raw₂ raw : Packet) (c₁ c₂ : Client) (v : Server) (t : System)
    → IsFile parts₁
    → IsFile parts₂
    → Client.main ok₁ (some (bytes_of parts₁)) raw₁ ≡ ok c₁
    → Client.main ok₂ (some (bytes_of parts₂)) raw₂ ≡ ok c₂
    → main socket_ok socket2_ok bind_ok bind2_ok true raw ≡ ok v
    → Reach (at_start c₁ c₂ v) t
    → (texts later₁ later₂ : List (List ℕ)) × (t.server.file ≡ some (join texts))
      × (every_other true texts ++ later₁ ≡ map field_of parts₁)
      × (every_other false texts ++ later₂ ≡ map field_of parts₂)
file-merged ok₁ ok₂ socket_ok socket2_ok bind_ok bind2_ok parts₁ parts₂ raw₁ raw₂ raw c₁ c₂ v t h₁
      h₂ e₁ e₂ e reach =
    let same₁ = client_begun-eq ok₁ _ raw₁ c₁ e₁ in
    let same₂ = client_begun-eq ok₂ _ raw₂ c₂ e₂ in
    let same = server_begun-eq socket_ok socket2_ok bind_ok bind2_ok raw v e in
    let start : Writes parts₁ parts₂ (at_start c₁ c₂ v) =
      subst (λ x. Writes parts₁ parts₂ (at_start x c₂ v)) same₁
        (subst (λ x. Writes parts₁ parts₂ (at_start (client_begun (bytes_of parts₁) raw₁) x v))
          same₂
          (subst
            (λ x. Writes parts₁ parts₂ (
              at_start (client_begun (bytes_of parts₁) raw₁) (client_begun (bytes_of parts₂) raw₂)
                x))
            same (begun-Writes parts₁ parts₂ raw₁ raw₂ raw h₁ h₂))) in
    let w = reach-Writes parts₁ parts₂ reach start in
    let (rest₁, f₁, _) = IsSafe-prefix number (view t.one _ _) w.inv.one.safe in
    let (rest₂, f₂, _) = IsSafe-prefix number (view t.two _ _) w.inv.two.safe in
    (
      map text_of t.server.taken,
      map text_of rest₁ ++ map field_of w.one.left,
      map text_of rest₂ ++ map field_of w.two.left,
      w.file,
      taken-fields true t.server.taken _ rest₁ parts₁ w.one.left f₁ w.one.texts,
      taken-fields false t.server.taken _ rest₂ parts₂ w.two.left f₂ w.two.texts,
    )
