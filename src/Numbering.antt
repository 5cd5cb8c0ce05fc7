-- ===== src/Numbering.antt =====
-- `AutoMagic` of util/container_operations.go: the number of the next or of the latest container.
pub mod Fresh
use eris_cli.Base.{ℕ, Bool, true, List, [], ◌∷◌, map, if◌then◌else◌}
use eris_cli.Base.Int.{ℤ, pos, leb_ℤ, int_eq, increment}
use eris_cli.Strings.{Text}
use eris_cli.Docker.{DockerClient}
use eris_cli.Names.{ContainerName}
use eris_cli.Listing.{eris_containers_by_type}

-- The loop that looks for the highest number, from `g`.
highest : ℤ → List ℤ → ℤ
highest g [] = g
highest g (n ∷ ns) = highest (if leb_ℤ g n then n else g) ns

unfoldable pub choose_number : List ContainerName → Bool → ℤ
unfolding highest
choose_number contns new_cont =
    let g = highest (pos 0) (map (λ c. c.number) contns) in
    let result = if new_cont then increment g else g in
    if int_eq result (pos 0) then pos 1 else result

unfoldable pub auto_magic : (D : DockerClient) → D.State → Text → Bool → ℤ
unfolding choose_number
auto_magic D s typ new_cont = choose_number (eris_containers_by_type D s typ true) new_cont
