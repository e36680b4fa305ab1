-- ===== src/GoBackN/Client/Start.antt =====
-- The window before the first packet.
use csf303_computer_networks.Prelude.{
  ℕ, ◌≡◌, refl, subst, some, List, [], arith, ok, IsText, >>=-eq-ok, ok-eq, false,
}
use csf303_computer_networks.GoBackN.Packet.{Packet}
use csf303_computer_networks.GoBackN.Input.{open_input}
use csf303_computer_networks.GoBackN.Input.Open.{open_input-IsReady}
use csf303_computer_networks.GoBackN.Created.{texts-nil}
use csf303_computer_networks.GoBackN.Client.{Client, start}
use csf303_computer_networks.GoBackN.Client.Window.{HasWindow}

pub record Starts (file : List ℕ) (c : Client) : Type 0 where
  pub window : HasWindow file [] c
  pub base : c.base ≡ 1
  pub unset : c.check ≡ false

pub start-Starts :
    (slots : ℕ → Packet) (file : List ℕ) {c : Client}
    → IsText file
    → start slots (some file) ≡ ok c
    → Starts file c
unfolding start
start-Starts slots file {c} text e =
    let (inp, e₁, e₂) = >>=-eq-ok (open_input (some file)) _ e in
    let (content, ready, all) = open_input-IsReady file text e₁ in
    subst (Starts file) (ok-eq _ c e₂) (record {
      window = record {
        content = content;
        ready = ready;
        carried = rw (← texts-nil) all;
        stream = tt;
        count = refl;
        low = omega arith;
        ordered = omega arith;
        bounded = omega arith;
        slots = λ i low high. absurd (omega arith);
        wire = tt;
      };
      base = refl;
      unset = refl;
    })
