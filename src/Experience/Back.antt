-- ===== src/Experience/Back.antt =====
-- Experience that is added and removed again (source/player.cpp, addExperience and removeExperience).
