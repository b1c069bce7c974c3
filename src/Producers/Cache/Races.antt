-- ===== src/Producers/Cache/Races.antt =====
-- producers/http/http.go: what a tick of the janitor does to a message that is written while it looks at its copy of the objects.
